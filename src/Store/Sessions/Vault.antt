-- ===== src/Store/Sessions/Vault.antt =====
-- The terminal vault is written by compare and swap.
use zzzproject.Base.{
  ℕ, ◌+◌, String, ◌≡◌, refl, ◌≢◌, true, false, some, arith, eq_iff, eqb, lookup, insert,
  lookup-insert, ok, err,
}
use zzzproject.Store.Types.{TerminalVault}
use zzzproject.Store.State.{MemoryStore, vault_conflict}
use zzzproject.Store.Sessions.{revision_of, get_terminal_vault, put_terminal_vault}

abbrev pub written : ℕ → String → String → ℕ → TerminalVault
written now user payload expected = record {
  user_id = user;
  payload = payload;
  revision = expected + 1;
  updated_at = now;
}

fitting :
    (s : MemoryStore) (now : ℕ) (user payload : String) (expected : ℕ)
    → revision_of (get_terminal_vault s user) ≡ expected
    → put_terminal_vault s now user payload expected ≡ (
      record s {
        terminal_vaults = insert user (written now user payload expected) s.terminal_vaults;
      },
      (some (written now user payload expected), ok tt),
    )
unfolding put_terminal_vault get_terminal_vault
fitting s now user payload expected fits =
    let same : eqb (revision_of (lookup user s.terminal_vaults)) expected ≡ true =
      ground (arith, fits) in
    rw (put_terminal_vault, same, fits) refl

stale :
    (s : MemoryStore) (now : ℕ) (user payload : String) (expected : ℕ) (vault : TerminalVault)
    → get_terminal_vault s user ≡ some vault
    → vault.revision ≢ expected
    → put_terminal_vault s now user payload expected ≡ (s, (some vault, err vault_conflict))
unfolding put_terminal_vault get_terminal_vault
stale s now user payload expected vault found d =
    let other : eqb vault.revision expected ≡ false = ground (arith, d) in
    rw (put_terminal_vault, found, other) refl

-- Of two writes that expect the same revision, the one that comes second fails whatever it writes: where
-- the first one's expectation holds, it stores its payload under the next revision, and the second one
-- changes nothing and gets that vault with the conflict.
pub put_terminal_vault_once :
    (s : MemoryStore) (now later : ℕ) (user payload payload' : String) (expected : ℕ)
    → revision_of (get_terminal_vault s user) ≡ expected
    → let first = put_terminal_vault s now user payload expected in
      let vault = written now user payload expected in
      (first.1 ≡ (some vault, ok tt))
      × ((get_terminal_vault first.0 user ≡ some vault)
          × (put_terminal_vault first.0 later user payload' expected
              ≡ (first.0, (some vault, err vault_conflict))))
unfolding get_terminal_vault
put_terminal_vault_once s now later user payload payload' expected fits =
    let vault = written now user payload expected in
    let stored : lookup user (insert user vault s.terminal_vaults) ≡ some vault =
      ground (arith, lookup-insert user user vault s.terminal_vaults, eq_iff user user) in
    rw (fitting s now user payload expected fits)
      (refl, (stored, stale _ later user payload' expected vault stored (λ e. omega (arith, e))))
