-- ===== src/Store/Friends/Symmetry.antt =====
-- Friendship goes both ways.
use zzzproject.Base.{
  ℕ, String, ◌≡◌, refl, ◌≢◌, inl, inr, Bool, true, false, not, ◌&&◌, ◌||◌, none, some, arith, ◌==◌,
  eq_iff, Bool-cases, Option-cases, Map, lookup, insert, remove, lookup-insert, lookup-remove,
}
use zzzproject.Store.Types.{FriendRequest}
use zzzproject.Store.State.{MemoryStore}
use zzzproject.Store.Friends.{
  get_friend_request, handle_friend_request, since_of, friends_in, are_friends, with_user, befriend,
  add_friend, unfriend, remove_friend,
}

abbrev pub pair_is : String → String → String → String → Bool
pair_is u f a b = (a == u) && (b == f)

friends_in-befriend :
    (u f : String) (now : ℕ) (m : Map (Map ℕ)) (a b : String)
    → friends_in (befriend u f now m) a b ≡ (pair_is u f a b || friends_in m a b)
friends_in-befriend u f now m a b = ground (
  arith,
  lookup-insert u a (insert f now (since_of (lookup u m))) m,
  lookup-insert f b now (since_of (lookup u m)),
  eq_iff u a,
  eq_iff a u,
  eq_iff f b,
  eq_iff b f,
)

friends_in-with_user :
    (u : String) (m : Map (Map ℕ)) (a b : String)
    → friends_in (with_user u m) a b ≡ friends_in m a b
friends_in-with_user u m a b =
    ground (arith, lookup-insert u a (since_of (lookup u m)) m, eq_iff u a, eq_iff a u)

friends_in-none : (m : Map (Map ℕ)) (a b : String) → lookup a m ≡ none → friends_in m a b ≡ false
unfolding lookup
friends_in-none m a b h = rw h refl

friends_in-unfriend :
    (u f : String) (m : Map (Map ℕ)) (a b : String)
    → friends_in (unfriend u f m) a b ≡ (not (pair_is u f a b) && friends_in m a b)
friends_in-unfriend u f m a b = elim (Option-cases (lookup u m)) [
  | inl absent ↦ rw (unfriend, absent) (ground (arith, eq_iff a u, friends_in-none m a b, absent))
  | inr (since, found) ↦
      rw (unfriend, found)
        (ground (
          arith,
          lookup-insert u a (remove f since) m,
          lookup-remove f b since,
          eq_iff u a,
          eq_iff a u,
          eq_iff f b,
          eq_iff b f,
          found,
        ))
]

abbrev pub IsSymmetric : MemoryStore → Type 0
IsSymmetric s = (a b : String) → are_friends s a b ≡ are_friends s b a

-- Between users that are not the same and not empty, an addition makes exactly these two friends of
-- each other, where friendship was symmetric before.
pub add_friend_effect :
    (s : MemoryStore) (now : ℕ) (user friend a b : String)
    → IsSymmetric s
    → user ≢ ""
    → friend ≢ ""
    → user ≢ friend
    → are_friends (add_friend s now user friend).0 a b
      ≡ (pair_is user friend a b || (pair_is friend user a b || are_friends s a b))
unfolding add_friend are_friends
add_friend_effect s now user friend a b h nu nf d =
    let m1 = with_user user s.friendships in
    let m2 = with_user friend m1 in
    let m3 = befriend user friend now m2 in
    let known = friends_in m2 user friend in
    ground (
      arith,
      eq_iff user "",
      eq_iff friend "",
      eq_iff user friend,
      eq_iff a user,
      eq_iff b friend,
      eq_iff a friend,
      eq_iff b user,
      h user friend,
      friends_in-with_user user s.friendships user friend,
      friends_in-with_user friend m1 user friend,
      friends_in-with_user user s.friendships a b,
      friends_in-with_user friend m1 a b,
      friends_in-befriend user friend now m2 a b,
      friends_in-befriend friend user now m3 a b,
    )

-- A removal ends the friendship of exactly these two users, where friendship was symmetric before.
pub remove_friend_effect :
    (s : MemoryStore) (user friend a b : String)
    → IsSymmetric s
    → are_friends (remove_friend s user friend).0 a b
      ≡ (not (pair_is user friend a b || pair_is friend user a b) && are_friends s a b)
unfolding remove_friend are_friends
remove_friend_effect s user friend a b h =
    let m1 = unfriend user friend s.friendships in
    ground (
      arith,
      eq_iff a user,
      eq_iff b friend,
      eq_iff a friend,
      eq_iff b user,
      h user friend,
      friends_in-unfriend user friend s.friendships a b,
      friends_in-unfriend friend user m1 a b,
    )

pub refused :
    (s : MemoryStore) (now : ℕ) (user friend : String)
    → (user == "" || (friend == "" || user == friend)) ≡ true
    → (add_friend s now user friend).0 ≡ s
unfolding add_friend
refused s now user friend e = rw e refl

-- Friendship stays symmetric under AddFriend and RemoveFriend, whatever they are called with.
pub friends-IsSymmetric :
    (s : MemoryStore) (now : ℕ) (user friend : String)
    → IsSymmetric s
    → IsSymmetric (add_friend s now user friend).0 × IsSymmetric (remove_friend s user friend).0
friends-IsSymmetric s now user friend h = (
  elim (Bool-cases (user == "" || (friend == "" || user == friend))) [
    | inl bad ↦ rw (refused s now user friend bad) h
    | inr fine ↦ λ a b.
        let nu : user ≢ "" = ground (arith, eq_iff user "", fine) in
        let nf : friend ≢ "" = ground (arith, eq_iff friend "", fine) in
        let d : user ≢ friend = ground (arith, eq_iff user friend, fine) in
        ground (
          arith,
          h a b,
          add_friend_effect s now user friend a b h nu nf d,
          add_friend_effect s now user friend b a h nu nf d,
        )
  ],
  λ a b. ground (
    arith,
    h a b,
    remove_friend_effect s user friend a b h,
    remove_friend_effect s user friend b a h,
  ),
)

handled :
    (s : MemoryStore) (id action : String) (r : FriendRequest)
    → lookup id s.friend_requests ≡ some r
    → (r.status == "pending") ≡ true
    → handle_friend_request s id action ≡ (
      record s { friend_requests = insert id (record r { status = action }) s.friend_requests },
      true,
    )
unfolding handle_friend_request
handled s id action r found pending = rw (handle_friend_request, found, pending) refl

ignored :
    (s : MemoryStore) (id action : String) (r : FriendRequest)
    → lookup id s.friend_requests ≡ some r
    → (r.status == "pending") ≡ false
    → handle_friend_request s id action ≡ (s, false)
unfolding handle_friend_request
ignored s id action r found closed = rw (handle_friend_request, found, closed) refl

-- A pending friend request is handled once: its status is then the action taken, no other request
-- changes, and a second call does nothing, unless the action was "pending" itself.
pub handle_friend_request_once :
    (s : MemoryStore) (id action again other : String) (r : FriendRequest)
    → lookup id s.friend_requests ≡ some r
    → r.status ≡ "pending"
    → action ≢ "pending"
    → id ≢ other
    → let s' = (handle_friend_request s id action).0 in
      ((handle_friend_request s id action).1 ≡ true)
      × ((get_friend_request s' id ≡ some (record r { status = action }))
          × ((get_friend_request s' other ≡ get_friend_request s other)
              × (handle_friend_request s' id again ≡ (s', false))))
unfolding get_friend_request
handle_friend_request_once s id action again other r found pending done d =
    let r' : FriendRequest = record r { status = action } in
    let now_at = lookup-insert id id r' s.friend_requests in
    let here : lookup id (insert id r' s.friend_requests) ≡ some r' =
      ground (arith, now_at, eq_iff id id) in
    rw (handled s id action r found ((eq_iff r.status "pending").1 pending)) (
      refl,
      (
        here,
        (
          ground (arith, lookup-insert id other r' s.friend_requests, eq_iff id other),
          ignored _ id again r' here (ground (arith, eq_iff action "pending")),
        ),
      ),
    )
