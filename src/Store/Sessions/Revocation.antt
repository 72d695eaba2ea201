-- ===== src/Store/Sessions/Revocation.antt =====
-- DeleteSessionsForUser.
use zzzproject.Base.{
  String, ◌≡◌, ◌≢◌, not, some, arith, ◌==◌, eq_iff, lookup-retain_kept, lookup-retain_test,
}
use zzzproject.Store.Types.{Session}
use zzzproject.Store.State.{MemoryStore}
use zzzproject.Store.Sessions.{get_session, delete_sessions_for_user}

-- Afterwards no token opens a session of that user, and every session of another user is there as
-- before.
pub delete_sessions_for_user_effect :
    (s : MemoryStore) (user hash : String) (x : Session)
    → (get_session (delete_sessions_for_user s user) hash ≡ some x → x.user_id ≢ user)
      × (get_session s hash ≡ some x
          → x.user_id ≢ user
          → get_session (delete_sessions_for_user s user) hash ≡ some x)
unfolding get_session delete_sessions_for_user
delete_sessions_for_user_effect s user hash x =
    let keep = λ (k : String) (y : Session). not (y.user_id == user) in
    (
      (λ found.
          ground (arith, lookup-retain_test keep hash s.sessions found, eq_iff x.user_id user)),
      λ found other.
          lookup-retain_kept keep hash s.sessions found (ground (arith, eq_iff x.user_id user)),
    )
