-- ===== src/Gateway/Announcements.antt =====
-- The announcements of groups: server/internal/gateway/group_announcements.go.
pub mod Keeping
use Prim.Native.String.{◌++◌}
use zzzproject.Base.{
  ℕ, String, Bool, true, false, not, ◌&&◌, ◌||◌, Option, none, some, List, [], ◌∷◌, ltb, ◌==◌,
  if◌then◌else◌, Result, ok, err,
}
use zzzproject.Protocol.{Json, text, Fields, end, field, get, get_string, MessageSegment, Sender}
use zzzproject.Store.Types.{Group, GroupAnnouncement, Message, User}
use zzzproject.Store.State.{Runtime, MemoryStore, StoreError}
use zzzproject.Store.Users.{get_user}
use zzzproject.Store.Groups.{get_group, update_group, is_group_member}
use zzzproject.Store.Messages.{Stored, store_message}
use zzzproject.Store.Announcements.{
  create_group_announcement, get_group_announcement, get_group_announcements,
  update_group_announcement, delete_group_announcement, mark_group_announcement_read,
}
use zzzproject.Gateway.Requests.{
  Host, Notice, Output, no_data, announcement_data, announcements_data, accepted, broadcast,
  to_user, broadcast_message, push_message, Handled, reject, with_params, as_bool, plain_notice,
}
use zzzproject.Gateway.Roles.{is_group_admin}

-- sort.Slice of announcements.
abbrev pub SortAnnouncements : Type 0
SortAnnouncements =
    (GroupAnnouncement → GroupAnnouncement → Bool) → List GroupAnnouncement → List GroupAnnouncement

-- What groupAnnouncementTarget and groupAnnouncementByID check of the group.
unfoldable pub with_access : MemoryStore → String → String → Bool → Handled → Handled
with_access s user group manager body =
    if not (is_group_member s group user)
    then reject s "group access denied"
    else if manager && not (is_group_admin s group user)
    then reject s "group permission denied"
    else body

unfoldable pub group_announcement_target :
    MemoryStore → String → Option Fields → Bool → (Fields → String → Handled) → Handled
unfolding with_access
group_announcement_target s user params manager body =
    with_params s user "invalid group announcement params" params (λ fields.
      let group = get_string "group_id" fields in
      if group == ""
      then reject s "group access denied"
      else with_access s user group manager (body fields group))

unfoldable pub group_announcement_by_id :
    MemoryStore → String → Option Fields → Bool → (Fields → GroupAnnouncement → Handled) → Handled
unfolding with_access
group_announcement_by_id s user params manager body =
    with_params s user "invalid group announcement params" params (λ fields.
      let id = get_string "announcement_id" fields in
      if id == ""
      then reject s "group announcement not found"
      else elim (get_group_announcement s id) [
        | none ↦ reject s "group announcement not found"
        | some a ↦ with_access s user a.group_id manager (body fields a)
      ])

abbrev first_content : List GroupAnnouncement → String
first_content [] = ""
first_content (a ∷ rest) = a.content

unfoldable pub sync_legacy_group_announcement :
    SortAnnouncements → MemoryStore → String → MemoryStore
sync_legacy_group_announcement sort s group = elim (get_group s group) [
  | none ↦ s
  | some g ↦
      (update_group s group g.name g.avatar
        (first_content (get_group_announcements sort s group "")) g.mute_all).0
]

abbrev checked_content : Host → Option Json → Option String
checked_content host (some (text t)) =
    let content = host.trim_space t in
    if content == "" || ltb 2000 (host.byte_len content) then none else some content
checked_content host _ = none

-- The content, trimmed, and the flag; none is the error.
abbrev both : Option String → Option Bool → Option (String × Bool)
both (some content) (some pinned) = some (content, pinned)
both _ _ = none

abbrev announcement_input : Host → Fields → Option (String × Bool)
announcement_input host fields =
    both (checked_content host (get "content" fields)) (as_bool (get "is_pinned" fields))

abbrev announcement_notice : String → String → String → String → Notice
announcement_notice group id operator action =
    record (plain_notice "group_announcement" group "" operator) {
      announcement_id = id;
      action = action;
    }

abbrev announcement_segments : GroupAnnouncement → List MessageSegment
announcement_segments a =
    record {
      type = "system";
      fields =
          field "text" (text ("Group announcement: " ++ a.content))
            (field "event" (text "group_announcement") (field "announcement_id" (text a.id) end));
    }
    ∷ []

abbrev author_of : String → Option User → Sender
author_of id none = record { user_id = id; nickname = id; avatar = "" }
author_of id (some u) = record { user_id = id; nickname = u.nickname; avatar = u.avatar }

abbrev published : GroupAnnouncement → Sender → Stored → Handled
published a author (s, err e) =
    (s, broadcast a.group_id (announcement_notice a.group_id a.id author.user_id "created") "" ∷ [])
published a author (s, ok (message, duplicate)) = (
  s,
  broadcast_message a.group_id author message
      ∷ push_message a.group_id message author.user_id
      ∷ broadcast a.group_id (announcement_notice a.group_id a.id author.user_id "created") ""
      ∷ [],
)

unfoldable pub publish_group_announcement :
    Runtime → ℕ → MemoryStore → String → GroupAnnouncement → Handled
publish_group_announcement rt now s author a =
    let sender = author_of author (get_user s author) in
    published a sender
      (store_message rt s now a.group_id author sender.nickname (announcement_segments a))

abbrev replied : GroupAnnouncement → Handled → Handled
replied a (s, sent) = (s, accepted (announcement_data (record a { is_read = true })) ∷ sent)

unfoldable pub finish_announcement :
    Runtime
    → SortAnnouncements
    → ℕ
    → String
    → String
    → MemoryStore × Result StoreError GroupAnnouncement
    → Handled
unfolding sync_legacy_group_announcement publish_group_announcement
finish_announcement rt sort now user group (s, err e) =
    reject s "failed to create group announcement"
finish_announcement rt sort now user group (s, ok a) =
    let marked = (mark_group_announcement_read s a.id user).0 in
    replied a (
      publish_group_announcement rt now (sync_legacy_group_announcement sort marked group) user
        (record a { is_read = true }))

unfoldable pub handle_create_group_announcement :
    Runtime → Host → SortAnnouncements → ℕ → ℕ → MemoryStore → String → Option Fields → Handled
unfolding group_announcement_target finish_announcement
handle_create_group_announcement rt host sort now later s user params =
    group_announcement_target s user params true (λ fields group.
      elim (announcement_input host fields) [
        | none ↦ reject s "announcement content must be 1-2000 characters"
        | some (content, pinned) ↦
            finish_announcement rt sort later user group
              (create_group_announcement rt s now group content user pinned)
      ])

unfoldable pub finish_edit :
    SortAnnouncements → String → MemoryStore × Option GroupAnnouncement → Handled
unfolding sync_legacy_group_announcement
finish_edit sort user (s, none) = reject s "failed to update group announcement"
finish_edit sort user (s, some a) =
    let marked = (mark_group_announcement_read s a.id user).0 in
    (
      sync_legacy_group_announcement sort marked a.group_id,
      accepted (announcement_data (record a { is_read = true }))
          ∷ broadcast a.group_id (announcement_notice a.group_id a.id user "updated") ""
          ∷ [],
    )

unfoldable pub handle_update_group_announcement :
    Host → SortAnnouncements → ℕ → MemoryStore → String → Option Fields → Handled
unfolding group_announcement_by_id finish_edit
handle_update_group_announcement host sort now s user params =
    group_announcement_by_id s user params true (λ fields a. elim (announcement_input host fields) [
      | none ↦ reject s "announcement content must be 1-2000 characters"
      | some (content, pinned) ↦
          finish_edit sort user (update_group_announcement s now a.id content pinned)
    ])

unfoldable pub finish_deletion :
    SortAnnouncements → String → GroupAnnouncement → MemoryStore × Bool → Handled
unfolding sync_legacy_group_announcement
finish_deletion sort user a (s, false) = reject s "failed to delete group announcement"
finish_deletion sort user a (s, true) = (
  sync_legacy_group_announcement sort s a.group_id,
  accepted no_data
      ∷ broadcast a.group_id (announcement_notice a.group_id a.id user "deleted") ""
      ∷ [],
)

unfoldable pub handle_delete_group_announcement :
    SortAnnouncements → MemoryStore → String → Option Fields → Handled
unfolding group_announcement_by_id finish_deletion
handle_delete_group_announcement sort s user params =
    group_announcement_by_id s user params true
      (λ fields a. finish_deletion sort user a (delete_group_announcement s a.id))

abbrev answer_read :
    String → GroupAnnouncement → MemoryStore × Result StoreError (Unit {0}) → Handled
answer_read user a (s, err e) = reject s "failed to mark group announcement read"
answer_read user a (s, ok u) =
    (s, accepted no_data ∷ to_user user (announcement_notice a.group_id a.id user "read") ∷ [])

unfoldable handle_mark_group_announcement_read : MemoryStore → String → Option Fields → Handled
unfolding group_announcement_by_id
handle_mark_group_announcement_read s user params =
    group_announcement_by_id s user params false
      (λ fields a. answer_read user a (mark_group_announcement_read s a.id user))

unfoldable handle_get_group_announcements :
    SortAnnouncements → MemoryStore → String → Option Fields → Handled
unfolding group_announcement_target
handle_get_group_announcements sort s user params =
    group_announcement_target s user params false (λ fields group.
      (s, accepted (announcements_data (get_group_announcements sort s group user)) ∷ []))
