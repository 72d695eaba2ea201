-- ===== src/Store/Announcements/Reading.antt =====
-- The read marks of announcements.
use zzzproject.Base.{
  String, ◌≡◌, refl, inl, inr, true, ◌&&◌, ◌||◌, arith, ◌==◌, eq_iff, if◌then◌else◌, Bool-cases,
  is_some, lookup, insert, lookup-insert, ok, err,
}
use zzzproject.Store.State.{MemoryStore, no_rows}
use zzzproject.Store.Announcements.{
  announcement_is_read, announcement_in_all, get_group_announcement, mark_group_announcement_read,
  readers_of,
}

-- MarkGroupAnnouncementRead of an announcement that GetGroupAnnouncement finds makes it read for this
-- user, and changes no other mark and nothing else in the store; of any other one, it reports that
-- there is none and leaves the store as it is.
pub mark_group_announcement_read_effect :
    (s : MemoryStore) (id user other reader : String)
    → let marked = mark_group_announcement_read s id user in
      let known = is_some (get_group_announcement s id) in
      (announcement_is_read marked.0 other reader
        ≡ ((known && ((id == other) && (user == reader))) || announcement_is_read s other reader))
      × (marked.1 ≡ (if known then ok tt else err no_rows))
      × ((if known then s else marked.0) ≡ s)
      × (marked.0 ≡ record s { announcement_reads = marked.0.announcement_reads })
unfolding mark_group_announcement_read announcement_is_read get_group_announcement
mark_group_announcement_read_effect s id user other reader =
    elim (Bool-cases (is_some (announcement_in_all id s.group_announcements))) [
      | inl known ↦
          rw (known, mark_group_announcement_read)
            (
              ground (
                arith,
                known,
                lookup-insert id other
                    (insert user true (readers_of (lookup id s.announcement_reads)))
                    s.announcement_reads,
                lookup-insert user reader true (readers_of (lookup id s.announcement_reads)),
                eq_iff id other,
                eq_iff user reader,
              ),
              refl,
              refl,
              refl,
            )
      | inr missing ↦
          rw (missing, mark_group_announcement_read) (ground (arith, missing), refl, refl, refl)
    ]
