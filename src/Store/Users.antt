-- ===== src/Store/Users.antt =====
-- The user methods of server/internal/store/memory.go.
use zzzproject.Base.{String, Bool, Option, none, some, Map, lookup, insert}
use zzzproject.Store.Types.{User}
use zzzproject.Store.State.{MemoryStore}

unfoldable pub get_user : MemoryStore → String → Option User
get_user s id = lookup id s.users

unfoldable pub set_user : MemoryStore → User → MemoryStore
set_user s user = record s { users = insert user.id user s.users }

unfoldable pub get_users : MemoryStore → Map User
get_users s = s.users

unfoldable pub set_user_online : MemoryStore → String → Bool → MemoryStore
set_user_online s id online = elim (lookup id s.users) [
  | none ↦ s
  | some user ↦ record s { users = insert id (record user { online = online }) s.users }
]
