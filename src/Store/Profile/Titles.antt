-- ===== src/Store/Profile/Titles.antt =====
-- No user has more than five active titles.
use zzzproject.Base.{
  ℕ, ◌+◌, ◌≤◌, String, inl, inr, [], ◌∷◌, arith, eq_iff, leb, eqb, if◌then◌else◌, if-cases,
  Option-cases, Map, lookup, insert, remove, Result,
}
use zzzproject.Store.Types.{UserTitle}
use zzzproject.Store.State.{MemoryStore, StoreError}
use zzzproject.Store.Profile.{title_is_active, active_titles, grant_user_title, delete_user_title}

active_titles-insert :
    (user : String) (now : ℕ) (id : String) (t : UserTitle) (m : Map UserTitle)
    → active_titles user now (insert id t m)
      ≤ active_titles user now m + (if title_is_active t user now then 1 else 0)
unfolding active_titles insert
active_titles-insert user now id t [] = ground arith
active_titles-insert user now id t ((k, w) ∷ m) =
    ground (arith, active_titles-insert user now id t m)

active_titles-remove :
    (user : String) (now : ℕ) (id : String) (m : Map UserTitle)
    → active_titles user now (remove id m) ≤ active_titles user now m
unfolding active_titles remove
active_titles-remove user now id [] = omega arith
active_titles-remove user now id ((k, w) ∷ m) = ground (arith, active_titles-remove user now id m)

active_titles-later :
    (user : String) (now later : ℕ) (m : Map UserTitle)
    → now ≤ later
    → active_titles user later m ≤ active_titles user now m
unfolding active_titles
active_titles-later user now later [] h = omega arith
active_titles-later user now later ((k, t) ∷ m) h =
    ground (arith, active_titles-later user now later m h)

abbrev pub IsLimited : ℕ → MemoryStore → Type 0
IsLimited now s = (user : String) → active_titles user now s.user_titles ≤ 5

-- Where no user has more than five active titles, no user has more at any later time after a title is
-- granted or refused, or one is deleted.
pub titles-IsLimited :
    (s : MemoryStore) (before now : ℕ) (title : UserTitle) (id : String)
    → before ≤ now
    → IsLimited before s
    → IsLimited now (grant_user_title s now title).0 × IsLimited now (delete_user_title s id).0
unfolding grant_user_title delete_user_title
titles-IsLimited s before now title id h limited =
    let m = s.user_titles in
    let created = if eqb title.created_at 0 then now else title.created_at in
    let t : UserTitle = record title { created_at = created } in
    let as_before : IsLimited now s =
      λ user. omega (arith, active_titles-later user before now m h, limited user) in
    (
      if-cases (λ (c : MemoryStore × Result StoreError (Unit {0})). IsLimited now c.0)
          (leb 5 (active_titles title.user_id now m)) (λ _. as_before)
          (λ few user. ground (
            arith,
            active_titles-insert user now title.id t m,
            eq_iff title.user_id user,
            as_before user,
            few,
          )),
      elim (Option-cases (lookup id m)) [
        | inl absent ↦ rw (delete_user_title, absent) as_before
        | inr (t', found) ↦
            rw (delete_user_title, found)
              (λ user. omega (arith, active_titles-remove user now id m, as_before user))
      ],
    )
