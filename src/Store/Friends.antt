-- ===== src/Store/Friends.antt =====
-- The friendship and friend request methods of server/internal/store/memory.go.
pub mod Symmetry
use zzzproject.Base.{
  ℕ, ◌+◌, String, Bool, true, false, not, ◌&&◌, ◌||◌, Option, none, some, List, [], ◌∷◌, ◌==◌,
  is_some, if◌then◌else◌, Map, lookup, insert, remove,
}
use zzzproject.Store.Types.{User, FriendRequest}
use zzzproject.Store.State.{Runtime, MemoryStore}
use zzzproject.Store.Groups.{values_of}

abbrev pub since_of : Option (Map ℕ) → Map ℕ
since_of none = []
since_of (some m) = m

unfoldable known_users : Map User → Map ℕ → List User
known_users users [] = []
known_users users ((id, since) ∷ m) =
    let rest = known_users users m in elim (lookup id users) [ none ↦ rest | some u ↦ u ∷ rest ]

-- GetFriends, in some order.
unfoldable get_friends : MemoryStore → String → List User
get_friends s user = known_users s.users (since_of (lookup user s.friendships))

abbrev pub friends_in : Map (Map ℕ) → String → String → Bool
friends_in m user friend = is_some (lookup friend (since_of (lookup user m)))

-- AreFriends.
unfoldable pub are_friends : MemoryStore → String → String → Bool
are_friends s user friend = friends_in s.friendships user friend

-- A table for the user, empty where there was none.
abbrev pub with_user : String → Map (Map ℕ) → Map (Map ℕ)
with_user user m = insert user (since_of (lookup user m)) m

-- `friendships[user][friend] = now`, where the user has a table.
abbrev pub befriend : String → String → ℕ → Map (Map ℕ) → Map (Map ℕ)
befriend user friend now m = insert user (insert friend now (since_of (lookup user m))) m

-- AddFriend.
unfoldable pub add_friend : MemoryStore → ℕ → String → String → MemoryStore × Bool
add_friend s now user friend =
    let m = with_user friend (with_user user s.friendships) in
    if user == "" || (friend == "" || user == friend)
    then (s, false)
    else if friends_in m user friend
    then (record s { friendships = m }, false)
    else (record s { friendships = befriend friend user now (befriend user friend now m) }, true)

-- `delete(friendships[user], friend)`, which changes nothing where the user has no table.
abbrev pub unfriend : String → String → Map (Map ℕ) → Map (Map ℕ)
unfriend user friend m = elim (lookup user m) [
  | none ↦ m
  | some since ↦ insert user (remove friend since) m
]

-- RemoveFriend.
unfoldable pub remove_friend : MemoryStore → String → String → MemoryStore × Bool
remove_friend s user friend =
    if friends_in s.friendships user friend
    then (
      record s { friendships = unfriend friend user (unfriend user friend s.friendships) },
      true,
    )
    else (s, false)

-- CreateFriendRequest.
unfoldable pub create_friend_request :
    Runtime → MemoryStore → ℕ → String → String → String → MemoryStore × FriendRequest
create_friend_request rt s now from to comment =
    let n = s.friend_req_counter + 1 in
    let request : FriendRequest = record {
      id = rt.request_id n;
      from_id = from;
      to_id = to;
      comment = comment;
      status = "pending";
      created_at = now;
    } in
    (
      record s {
        friend_req_counter = n;
        friend_requests = insert request.id request s.friend_requests;
      },
      request,
    )

unfoldable pub get_friend_request : MemoryStore → String → Option FriendRequest
get_friend_request s id = lookup id s.friend_requests

unfoldable pending_of : String → List FriendRequest → List FriendRequest
pending_of user [] = []
pending_of user (r ∷ rs) =
    let rest = pending_of user rs in
    if (r.to_id == user || r.from_id == user) && (r.status == "pending") then r ∷ rest else rest

-- GetPendingFriendRequests, in some order.
unfoldable pub get_pending_friend_requests : MemoryStore → String → List FriendRequest
unfolding pending_of
get_pending_friend_requests s user = pending_of user (values_of s.friend_requests)

-- HandleFriendRequest.
unfoldable pub handle_friend_request : MemoryStore → String → String → MemoryStore × Bool
handle_friend_request s id action = elim (lookup id s.friend_requests) [
  | none ↦ (s, false)
  | some r ↦
      if r.status == "pending"
      then (
        record s { friend_requests = insert id (record r { status = action }) s.friend_requests },
        true,
      )
      else (s, false)
]
