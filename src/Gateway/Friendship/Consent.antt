-- ===== src/Gateway/Friendship/Consent.antt =====
-- Friendship needs the consent of both users.
use zzzproject.Base.{
  ℕ, String, ◌≡◌, refl, ◌∙◌, inl, inr, Bool, true, false, not, ◌||◌, Option, none, some, ◌==◌,
  if-cases, Option-cases, lookup,
}
use zzzproject.Protocol.{Fields, get_string}
use zzzproject.Store.Types.{FriendRequest}
use zzzproject.Store.State.{Runtime, MemoryStore, new_memory_store}
use zzzproject.Store.Friends.{
  are_friends, add_friend, remove_friend, get_friend_request, handle_friend_request,
}
use zzzproject.Store.Friends.Symmetry.{IsSymmetric, friends-IsSymmetric}
use zzzproject.Gateway.Requests.{Host, Handled, with_params-keeps}
use zzzproject.Gateway.Friendship.{
  handle_ask_friend, accepts, finish_answer, answer_friend, handle_friend_handle,
  handle_remove_friend,
}
use zzzproject.Gateway.Friendship.Gains.{
  Asked, Gains, no_gain, from_gains, same_friends, same-IsSymmetric, handled_friendships,
  handle_friend_handle-Gains, handle_ask_friend_friendships, removal_store,
  handle_remove_friend-Gains,
}

-- The actions whose handlers change friendships and friend requests.
pub data FriendAction : Type 0 where
  friend_request : FriendAction
  friend_request_handle : FriendAction
  remove_friend_action : FriendAction

unfoldable pub handle_friend_action :
    Runtime → Host → ℕ → MemoryStore → String → FriendAction → Option Fields → Handled
handle_friend_action rt host now s user friend_request params =
    handle_ask_friend rt host now s user params
handle_friend_action rt host now s user friend_request_handle params =
    handle_friend_handle now s user params
handle_friend_action rt host now s user remove_friend_action params =
    handle_remove_friend s user params

-- After a handler, friendship is symmetric.
Symmetric : Handled → Type 0
Symmetric h = IsSymmetric h.0

finish_answer-Symmetric :
    (user : String) (r : FriendRequest) (accept added : Bool) (c : MemoryStore × Bool)
    → IsSymmetric c.0
    → Symmetric (finish_answer user r accept added c)
unfolding finish_answer Symmetric
finish_answer-Symmetric user r accept added (s, true) h = h
finish_answer-Symmetric user r accept true (s, false) h =
    (friends-IsSymmetric s 0 r.from_id r.to_id h).1
finish_answer-Symmetric user r accept false (s, false) h = h

answer_friend-Symmetric :
    (now : ℕ) (s : MemoryStore) (user flag : String) (r : FriendRequest) (action : Option Bool)
    → IsSymmetric s
    → Symmetric (answer_friend now s user flag r action)
unfolding answer_friend Symmetric
answer_friend-Symmetric now s user flag r none h = h
answer_friend-Symmetric now s user flag r (some true) h =
    let added = add_friend s now r.from_id r.to_id in
    finish_answer-Symmetric user r true added.1 (handle_friend_request added.0 flag "accepted") (
      same-IsSymmetric added.0 _ (handled_friendships added.0 flag "accepted")
        (friends-IsSymmetric s now r.from_id r.to_id h).0)
answer_friend-Symmetric now s user flag r (some false) h =
    finish_answer-Symmetric user r false false (handle_friend_request s flag "rejected")
      (same-IsSymmetric s _ (handled_friendships s flag "rejected") h)

handle_friend_action-Symmetric :
    (rt : Runtime) (host : Host) (now : ℕ) (s : MemoryStore) (user : String) (action : FriendAction)
    (params : Option Fields)
    → IsSymmetric s
    → IsSymmetric (handle_friend_action rt host now s user action params).0
unfolding handle_friend_action handle_friend_handle handle_remove_friend get_friend_request
    Symmetric
handle_friend_action-Symmetric rt host now s user friend_request params h =
    same-IsSymmetric s _ (handle_ask_friend_friendships rt host now s user params) h
handle_friend_action-Symmetric rt host now s user friend_request_handle params h =
    with_params-keeps Symmetric s user _ params _ (λ _. h)
      (λ _ fields.
        let flag = get_string "flag" fields in
        elim (Option-cases (lookup flag s.friend_requests)) [
          | inl absent ↦ rw absent h
          | inr (r, found) ↦ rw found (
              if-cases Symmetric (not (r.to_id == user) || not (r.status == "pending")) (λ _. h)
                (λ _.
                  answer_friend-Symmetric now s user flag r (accepts (get_string "action" fields))
                    h))
        ])
handle_friend_action-Symmetric rt host now s user remove_friend_action params h =
    with_params-keeps Symmetric s user _ params _ (λ _. h)
      (λ _ fields.
        let friend = get_string "user_id" fields in
        rw (removal_store user friend (remove_friend s user friend))
          (friends-IsSymmetric s 0 user friend h).1)

-- The stores that requests lead to from an empty one. A block ends a friendship; every other request
-- that is no friend action leaves the friendships.
pub data FriendsReachable (rt : Runtime) (host : Host) : MemoryStore → Type 0 where
  start : FriendsReachable rt host new_memory_store
  request :
      (now : ℕ) (s : MemoryStore) (user : String) (action : FriendAction) (params : Option Fields)
      → FriendsReachable rt host s
      → FriendsReachable rt host (handle_friend_action rt host now s user action params).0
  blocks :
      (s : MemoryStore) (user friend : String)
      → FriendsReachable rt host s
      → FriendsReachable rt host (remove_friend s user friend).0
  elsewhere :
      (s s' : MemoryStore)
      → s'.friendships ≡ s.friendships
      → FriendsReachable rt host s
      → FriendsReachable rt host s'

FriendsReachable-IsSymmetric :
    (rt : Runtime) (host : Host) (s : MemoryStore) → FriendsReachable rt host s → IsSymmetric s
unfolding are_friends new_memory_store lookup
FriendsReachable-IsSymmetric rt host s start = λ a b. refl
FriendsReachable-IsSymmetric rt host s (request now s0 user action params r) =
    handle_friend_action-Symmetric rt host now s0 user action params
      (FriendsReachable-IsSymmetric rt host s0 r)
FriendsReachable-IsSymmetric rt host s (blocks s0 user friend r) =
    (friends-IsSymmetric s0 0 user friend (FriendsReachable-IsSymmetric rt host s0 r)).1
FriendsReachable-IsSymmetric rt host s (elsewhere s0 s' same r) =
    same-IsSymmetric s0 s' same (FriendsReachable-IsSymmetric rt host s0 r)

handle_friend_action-Gains :
    (rt : Runtime) (host : Host) (now : ℕ) (s : MemoryStore) (user : String) (action : FriendAction)
    (params : Option Fields) (a b : String)
    → IsSymmetric s
    → are_friends s a b ≡ false
    → Gains (Asked s user a b) a b (handle_friend_action rt host now s user action params)
unfolding handle_friend_action
handle_friend_action-Gains rt host now s user friend_request params a b h apart =
    no_gain (Asked s user a b) a b _ (
      same_friends s (handle_ask_friend rt host now s user params).0 a b
        (handle_ask_friend_friendships rt host now s user params)
      ∙ apart)
handle_friend_action-Gains rt host now s user friend_request_handle params a b h apart =
    handle_friend_handle-Gains a b now s user params h apart
handle_friend_action-Gains rt host now s user remove_friend_action params a b h apart =
    handle_remove_friend-Gains (Asked s user a b) a b s user params h apart

-- In a store that requests lead to, a request makes two users friends who were not only if the one who
-- sends it had been asked: there was a pending friend request to them, and the two users are the one
-- who had made it and the one who answers it.
pub friendship_needs_consent :
    (rt : Runtime) (host : Host) (now : ℕ) (s : MemoryStore) (user : String) (action : FriendAction)
    (params : Option Fields) (a b : String)
    → FriendsReachable rt host s
    → are_friends s a b ≡ false
    → are_friends (handle_friend_action rt host now s user action params).0 a b ≡ true
    → Asked s user a b
friendship_needs_consent rt host now s user action params a b r apart joined =
    from_gains (Asked s user a b) a b (handle_friend_action rt host now s user action params)
      (handle_friend_action-Gains rt host now s user action params a b
        (FriendsReachable-IsSymmetric rt host s r) apart)
      joined
