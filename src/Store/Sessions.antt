-- ===== src/Store/Sessions.antt =====
-- The in-memory parts of server/internal/store/session.go, terminal_sessions.go, terminal_vault.go and
-- push.go.
--
-- A vault's revision starts at 1 and grows by one with each write, so the overflow of Go's int64 is out
-- of reach; a negative expected revision matches none and is not modelled.
pub mod Vault
pub mod Revocation
use zzzproject.Base.{
  ℕ, ◌+◌, String, Bool, true, false, not, Option, none, some, List, [], ◌∷◌, take, length, ltb, eqb,
  ◌==◌, if◌then◌else◌, Map, lookup, insert, remove, retain, Result, ok, err,
}
use zzzproject.Store.Types.{Session, TerminalSession, TerminalVault, PushSubscription}
use zzzproject.Store.State.{MemoryStore, StoreError, vault_conflict}
use zzzproject.Store.Groups.{values_of}

-- UpsertSession; a zero time is 0.
unfoldable pub upsert_session : MemoryStore → ℕ → Session → MemoryStore
upsert_session s now session =
    let created = if eqb session.created_at 0 then now else session.created_at in
    record s {
      sessions = insert session.token_hash (record session { created_at = created }) s.sessions;
    }

unfoldable pub get_session : MemoryStore → String → Option Session
get_session s hash = lookup hash s.sessions

unfoldable pub delete_session : MemoryStore → String → MemoryStore
delete_session s hash = record s { sessions = remove hash s.sessions }

unfoldable pub delete_sessions_for_user : MemoryStore → String → MemoryStore
delete_sessions_for_user s user = record s {
  sessions = retain (λ k (x : Session). not (x.user_id == user)) s.sessions;
}

-- UpsertTerminalSession.
unfoldable pub upsert_terminal_session : MemoryStore → ℕ → TerminalSession → MemoryStore
upsert_terminal_session s now session =
    let login = if eqb session.login_at 0 then now else session.login_at in
    let seen = if eqb session.last_seen_at 0 then login else session.last_seen_at in
    record s {
      terminal_sessions =
          insert session.id (record session { login_at = login; last_seen_at = seen })
            s.terminal_sessions;
    }

unfoldable pub touch_terminal_session : MemoryStore → String → ℕ → MemoryStore
touch_terminal_session s id seen = elim (lookup id s.terminal_sessions) [
  | none ↦ s
  | some session ↦
      if ltb session.last_seen_at seen
      then record s {
        terminal_sessions = insert id (record session { last_seen_at = seen }) s.terminal_sessions;
      }
      else s
]

unfoldable pub end_terminal_session : MemoryStore → ℕ → String → ℕ → MemoryStore
end_terminal_session s now id ended = elim (lookup id s.terminal_sessions) [
  | none ↦ s
  | some session ↦
      let at = if eqb ended 0 then now else ended in
      let session' : TerminalSession = record session {
        connected = false;
        last_seen_at = at;
        logout_at = some at;
      } in
      record s { terminal_sessions = insert id session' s.terminal_sessions }
]

-- GetRecentTerminalSessions, with `sort.Slice` by the latest time seen; a negative limit acts as 0 does.
unfoldable pub get_recent_terminal_sessions :
    ((TerminalSession → TerminalSession → Bool) → List TerminalSession → List TerminalSession)
    → MemoryStore
    → ℕ
    → List TerminalSession
get_recent_terminal_sessions sort_slice s limit =
    let limit' = if eqb limit 0 then 200 else limit in
    let result =
      sort_slice (λ (a b : TerminalSession). ltb b.last_seen_at a.last_seen_at)
        (values_of s.terminal_sessions) in
    if ltb limit' (length result) then take limit' result else result

-- GetTerminalVault.
unfoldable pub get_terminal_vault : MemoryStore → String → Option TerminalVault
get_terminal_vault s user = lookup user s.terminal_vaults

abbrev pub revision_of : Option TerminalVault → ℕ
revision_of none = 0
revision_of (some vault) = vault.revision

-- PutTerminalVault: on a conflict, the vault that is there and the error.
unfoldable pub put_terminal_vault :
    MemoryStore
    → ℕ
    → String
    → String
    → ℕ
    → MemoryStore × (Option TerminalVault × Result StoreError (Unit {0}))
put_terminal_vault s now user payload expected =
    let current = lookup user s.terminal_vaults in
    let vault : TerminalVault = record {
      user_id = user;
      payload = payload;
      revision = revision_of current + 1;
      updated_at = now;
    } in
    if not (eqb (revision_of current) expected)
    then (s, (current, err vault_conflict))
    else (record s { terminal_vaults = insert user vault s.terminal_vaults }, (some vault, ok tt))

unfoldable pub delete_terminal_vault : MemoryStore → String → MemoryStore
delete_terminal_vault s user = record s { terminal_vaults = remove user s.terminal_vaults }

abbrev pub endpoints_of : Option (Map PushSubscription) → Map PushSubscription
endpoints_of none = []
endpoints_of (some m) = m

abbrev first_created : ℕ → Option PushSubscription → ℕ
first_created now none = now
first_created now (some existing) = existing.created_at

-- UpsertPushSubscription.
unfoldable pub upsert_push_subscription : MemoryStore → ℕ → PushSubscription → MemoryStore
upsert_push_subscription s now p =
    let by_endpoint = endpoints_of (lookup p.user_id s.push_subscriptions) in
    let p' : PushSubscription = record p {
      created_at = first_created now (lookup p.endpoint by_endpoint);
      updated_at = now;
    } in
    record s {
      push_subscriptions = insert p.user_id (insert p.endpoint p' by_endpoint) s.push_subscriptions;
    }

-- DeletePushSubscription.
unfoldable pub delete_push_subscription : MemoryStore → String → String → MemoryStore
delete_push_subscription s user endpoint =
    let by_endpoint = remove endpoint (endpoints_of (lookup user s.push_subscriptions)) in
    record s {
      push_subscriptions =
          if eqb (length by_endpoint) 0
          then remove user s.push_subscriptions
          else insert user by_endpoint s.push_subscriptions;
    }

-- GetPushSubscriptions, in some order.
unfoldable get_push_subscriptions : MemoryStore → String → List PushSubscription
get_push_subscriptions s user = values_of (endpoints_of (lookup user s.push_subscriptions))
