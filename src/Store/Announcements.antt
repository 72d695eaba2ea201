-- ===== src/Store/Announcements.antt =====
-- The methods of MemoryStore in server/internal/store/announcements.go.
pub mod Reading
use zzzproject.Base.{
  ℕ, ◌+◌, String, Bool, true, false, not, ◌||◌, Option, none, some, List, [], ◌∷◌, ◌++◌, map, ltb,
  ◌==◌, if◌then◌else◌, is_some, Map, lookup, insert, remove, Result, ok, err,
}
use zzzproject.Store.Types.{GroupAnnouncement}
use zzzproject.Store.State.{Runtime, MemoryStore, StoreError, group_not_found, no_rows}
use zzzproject.Store.Groups.{announcements_of}

unfoldable pub create_group_announcement :
    Runtime
    → MemoryStore
    → ℕ
    → String
    → String
    → String
    → Bool
    → MemoryStore × Result StoreError GroupAnnouncement
create_group_announcement rt s now group content author pinned =
    let counter = s.announcement_counter + 1 in
    let announcement : GroupAnnouncement = record {
      id = rt.announcement_id now counter;
      group_id = group;
      content = content;
      author_id = author;
      is_pinned = pinned;
      is_read = false;
      created_at = now;
      updated_at = now;
    } in
    if not (is_some (lookup group s.groups)) then (s, err group_not_found) else (
      record s {
        announcement_counter = counter;
        group_announcements =
            insert group
              (announcements_of (lookup group s.group_announcements) ++ announcement ∷ [])
              s.group_announcements;
      },
      ok announcement,
    )

-- The first announcement in a list with an identifier.
unfoldable pub announcement_in : String → List GroupAnnouncement → Option GroupAnnouncement
announcement_in id [] = none
announcement_in id (a ∷ rest) =
    let later = announcement_in id rest in if a.id == id then some a else later

unfoldable pub announcement_in_all :
    String → Map (List GroupAnnouncement) → Option GroupAnnouncement
unfolding announcement_in
announcement_in_all id [] = none
announcement_in_all id ((group, list) ∷ m) = elim (announcement_in id list) [
  | none ↦ announcement_in_all id m
  | some a ↦ some a
]

unfoldable pub get_group_announcement : MemoryStore → String → Option GroupAnnouncement
unfolding announcement_in_all
get_group_announcement s id = announcement_in_all id s.group_announcements

abbrev pub readers_of : Option (Map Bool) → Map Bool
readers_of none = []
readers_of (some m) = m

abbrev flag_of : Option Bool → Bool
flag_of none = false
flag_of (some b) = b

-- `s.announcementReads[announcementID][userID]`
unfoldable pub announcement_is_read : MemoryStore → String → String → Bool
announcement_is_read s id user = flag_of (lookup user (readers_of (lookup id s.announcement_reads)))

-- Pinned announcements first, and then the ones changed last.
abbrev pub announcement_before : GroupAnnouncement → GroupAnnouncement → Bool
announcement_before a b =
    if (if a.is_pinned then not b.is_pinned else b.is_pinned)
    then a.is_pinned
    else ltb b.updated_at a.updated_at

-- GetGroupAnnouncements; sort.Slice is an argument.
unfoldable pub get_group_announcements :
    ((GroupAnnouncement → GroupAnnouncement → Bool)
      → List GroupAnnouncement
      → List GroupAnnouncement)
    → MemoryStore
    → String
    → String
    → List GroupAnnouncement
unfolding announcement_is_read
get_group_announcements sort_slice s group user = sort_slice announcement_before (
    map (λ (a : GroupAnnouncement). record a { is_read = announcement_is_read s a.id user })
      (announcements_of (lookup group s.group_announcements)))

-- A change to the first announcement with an identifier.
unfoldable pub change_announcement :
    String
    → (GroupAnnouncement → GroupAnnouncement)
    → List GroupAnnouncement
    → List GroupAnnouncement
change_announcement id f [] = []
change_announcement id f (a ∷ rest) =
    let later = change_announcement id f rest in if a.id == id then f a ∷ rest else a ∷ later

-- A change to the first list that has an announcement with the identifier.
unfoldable pub change_list :
    String
    → (List GroupAnnouncement → List GroupAnnouncement)
    → Map (List GroupAnnouncement)
    → Map (List GroupAnnouncement)
unfolding announcement_in
change_list id f [] = []
change_list id f ((group, list) ∷ m) =
    let rest = change_list id f m in
    if is_some (announcement_in id list) then (group, f list) ∷ m else (group, list) ∷ rest

abbrev edited : ℕ → String → Bool → GroupAnnouncement → GroupAnnouncement
edited now content pinned a = record a { content = content; is_pinned = pinned; updated_at = now }

unfoldable pub update_group_announcement :
    MemoryStore → ℕ → String → String → Bool → MemoryStore × Option GroupAnnouncement
unfolding announcement_in_all change_list change_announcement
update_group_announcement s now id content pinned =
    elim (announcement_in_all id s.group_announcements) [
      | none ↦ (s, none)
      | some a ↦ (
        record s {
          group_announcements =
              change_list id (change_announcement id (edited now content pinned))
                s.group_announcements;
        },
        some (edited now content pinned a),
      )
    ]

unfoldable pub without_announcement : String → List GroupAnnouncement → List GroupAnnouncement
without_announcement id [] = []
without_announcement id (a ∷ rest) =
    let later = without_announcement id rest in if a.id == id then rest else a ∷ later

unfoldable pub delete_group_announcement : MemoryStore → String → MemoryStore × Bool
unfolding announcement_in_all change_list without_announcement
delete_group_announcement s id = elim (announcement_in_all id s.group_announcements) [
  | none ↦ (s, false)
  | some a ↦ (
    record s {
      group_announcements = change_list id (without_announcement id) s.group_announcements;
      announcement_reads = remove id s.announcement_reads;
    },
    true,
  )
]

unfoldable pub mark_group_announcement_read :
    MemoryStore → String → String → MemoryStore × Result StoreError (Unit {0})
unfolding announcement_in_all
mark_group_announcement_read s id user =
    if not (is_some (announcement_in_all id s.group_announcements)) then (s, err no_rows) else (
      record s {
        announcement_reads =
            insert id (insert user true (readers_of (lookup id s.announcement_reads)))
              s.announcement_reads;
      },
      ok tt,
    )
