-- ===== src/Store/Profile.antt =====
-- The in-memory part of server/internal/store/profile_cards.go.
pub mod Titles
use zzzproject.Base.{
  ℕ, ◌+◌, String, Bool, true, false, not, ◌&&◌, ◌||◌, Option, none, some, List, [], ◌∷◌, ◌++◌, take,
  length, ltb, leb, eqb, ◌==◌, is_some, if◌then◌else◌, Map, lookup, insert, remove, Result, ok, err,
}
use zzzproject.Store.Types.{UserTitle, UserReport}
use zzzproject.Store.State.{MemoryStore, StoreError, title_limit}
use zzzproject.Store.Groups.{values_of}
use zzzproject.Store.Friends.{since_of}

abbrev pub is_lasting : Option ℕ → ℕ → Bool
is_lasting none now = true
is_lasting (some t) now = ltb now t

-- titleIsActive.
abbrev pub title_is_active : UserTitle → String → ℕ → Bool
title_is_active title user now = (title.user_id == user) && is_lasting title.expires_at now

-- titleIsVisible.
unfoldable pub title_is_visible : UserTitle → String → String → ℕ → Bool
title_is_visible title user group now =
    if not (title_is_active title user now)
    then false
    else (title.scope_type == "system"
        || ((title.scope_type == "group") && (not (group == "") && (title.scope_id == group))))

visible_of : String → String → ℕ → List UserTitle → List UserTitle
unfolding title_is_visible
visible_of user group now [] = []
visible_of user group now (t ∷ ts) =
    let rest = visible_of user group now ts in
    if title_is_visible t user group now then t ∷ rest else rest

-- GetUserTitles, with `sort.Slice` by the time of creation.
unfoldable get_user_titles :
    ((UserTitle → UserTitle → Bool) → List UserTitle → List UserTitle)
    → MemoryStore
    → ℕ
    → String
    → String
    → List UserTitle
unfolding visible_of
get_user_titles sort_slice s now user group =
    sort_slice (λ (a b : UserTitle). ltb a.created_at b.created_at)
      (visible_of user group now (values_of s.user_titles))

unfoldable pub active_titles : String → ℕ → Map UserTitle → ℕ
active_titles user now [] = 0
active_titles user now ((k, t) ∷ m) =
    let rest = active_titles user now m in if title_is_active t user now then 1 + rest else rest

-- GrantUserTitle.
unfoldable pub grant_user_title :
    MemoryStore → ℕ → UserTitle → MemoryStore × Result StoreError (Unit {0})
unfolding active_titles
grant_user_title s now title =
    let created = if eqb title.created_at 0 then now else title.created_at in
    if leb 5 (active_titles title.user_id now s.user_titles) then (s, err title_limit) else (
      record s {
        user_titles = insert title.id (record title { created_at = created }) s.user_titles;
      },
      ok tt,
    )

-- DeleteUserTitle.
unfoldable pub delete_user_title : MemoryStore → String → MemoryStore × Bool
delete_user_title s id = elim (lookup id s.user_titles) [
  | none ↦ (s, false)
  | some t ↦ (record s { user_titles = remove id s.user_titles }, true)
]

-- SetUserBlocked.
unfoldable pub set_user_blocked : MemoryStore → ℕ → String → String → Bool → MemoryStore
set_user_blocked s now blocker other blocked =
    let others = since_of (lookup blocker s.user_blocks) in
    if blocked
    then record s { user_blocks = insert blocker (insert other now others) s.user_blocks }
    else elim (lookup blocker s.user_blocks) [
      | none ↦ s
      | some others' ↦ record s {
        user_blocks = insert blocker (remove other others') s.user_blocks;
      }
    ]

-- IsUserBlocked.
unfoldable pub is_user_blocked : MemoryStore → String → String → Bool
is_user_blocked s blocker other = is_some (lookup other (since_of (lookup blocker s.user_blocks)))

-- CreateUserReport.
unfoldable pub create_user_report : MemoryStore → ℕ → UserReport → MemoryStore
create_user_report s now report =
    let created = if eqb report.created_at 0 then now else report.created_at in
    record s { user_reports = s.user_reports ++ record report { created_at = created } ∷ [] }

reversed : List UserReport → List UserReport
reversed [] = []
reversed (r ∷ rs) = reversed rs ++ r ∷ []

-- GetUserReports: the latest first; a negative limit acts as 0 does.
unfoldable get_user_reports : MemoryStore → ℕ → List UserReport
unfolding reversed
get_user_reports s limit =
    let all = length s.user_reports in
    let limit' = if eqb limit 0 || ltb all limit then all else limit in
    take limit' (reversed s.user_reports)
