-- ===== src/Gateway/Friendship/Gains.antt =====
-- What it takes for two users to become friends in a handler of Gateway.Friendship.
use zzzproject.Base.{
  ℕ, String, ◌≡◌, ◌≢◌, refl, sym, ◌∙◌, inl, inr, Bool, true, false, not, ◌||◌, Option, none, some,
  arith, ◌==◌, eq_iff, ltb, is_some, if-cases, Bool-cases, Option-cases, lookup,
}
use zzzproject.Protocol.{Fields, get_string}
use zzzproject.Store.Types.{FriendRequest}
use zzzproject.Store.State.{Runtime, MemoryStore}
use zzzproject.Store.Users.{get_user}
use zzzproject.Store.Friends.{
  are_friends, add_friend, remove_friend, create_friend_request, get_friend_request,
  get_pending_friend_requests, handle_friend_request,
}
use zzzproject.Store.Friends.Symmetry.{
  IsSymmetric, pair_is, add_friend_effect, remove_friend_effect, friends-IsSymmetric, refused,
}
use zzzproject.Gateway.Requests.{Host, Handled, with_params-keeps}
use zzzproject.Gateway.Friendship.{
  is_either_blocked, any_between, ask_friend, handle_ask_friend, accepts, finish_answer,
  answer_friend, handle_friend_handle, handle_remove_friend, answer_removal,
}

-- Two users are the ones of a pair, in either order.
abbrev pub are_pair : String → String → String → String → Bool
are_pair user friend a b = pair_is user friend a b || pair_is friend user a b

-- A pending request between the two, which the other one of them sent to the user.
abbrev pub Asked : MemoryStore → String → String → String → Type 0
Asked s user a b =
    (flag : String) × ((r : FriendRequest) × ((get_friend_request s flag ≡ some r)
        × ((r.status ≡ "pending") × ((r.to_id ≡ user) × (are_pair r.from_id r.to_id a b ≡ true)))))

-- What follows if the two are friends afterwards.
pub Gains : Type 0 → String → String → Handled → Type 0
Gains C a b h = are_friends h.0 a b ≡ true → C

pub no_gain :
    (C : Type 0) (a b : String) (h : Handled) → are_friends h.0 a b ≡ false → Gains C a b h
unfolding Gains
no_gain C a b h apart = λ e. absurd (cc (apart, e))

add_friend_gains :
    (s : MemoryStore) (now : ℕ) (user friend a b : String)
    → IsSymmetric s
    → are_friends s a b ≡ false
    → are_friends (add_friend s now user friend).0 a b ≡ true
    → are_pair user friend a b ≡ true
add_friend_gains s now user friend a b h apart joined =
    elim (Bool-cases (user == "" || (friend == "" || user == friend))) [
      | inl bad ↦
          let same : are_friends s a b ≡ true = rw (refused s now user friend bad) at joined in
          absurd (cc (same, apart))
      | inr fine ↦
          let nu : user ≢ "" = ground (arith, eq_iff user "", fine) in
          let nf : friend ≢ "" = ground (arith, eq_iff friend "", fine) in
          let d : user ≢ friend = ground (arith, eq_iff user friend, fine) in
          ground (arith, add_friend_effect s now user friend a b h nu nf d, joined, apart)
    ]

-- The friendships are what they were.
pub same_friends :
    (s s' : MemoryStore) (a b : String)
    → s'.friendships ≡ s.friendships
    → are_friends s' a b ≡ are_friends s a b
unfolding are_friends
same_friends s s' a b e = rw e refl

pub same-IsSymmetric :
    (s s' : MemoryStore) → s'.friendships ≡ s.friendships → IsSymmetric s → IsSymmetric s'
same-IsSymmetric s s' e h a b = same_friends s s' a b e ∙ h a b ∙ sym (same_friends s s' b a e)

pub handled_friendships :
    (s : MemoryStore) (flag action : String)
    → (handle_friend_request s flag action).0.friendships ≡ s.friendships
unfolding handle_friend_request
handled_friendships s flag action = elim (Option-cases (lookup flag s.friend_requests)) [
  | inl absent ↦ rw (handle_friend_request, absent) refl
  | inr (r, found) ↦
      rw (handle_friend_request, found)
        (if-cases (λ (c : MemoryStore × Bool). c.0.friendships ≡ s.friendships)
          (r.status == "pending") (λ _. refl) (λ _. refl))
]

remove_friend_gains :
    (s : MemoryStore) (user friend a b : String)
    → IsSymmetric s
    → are_friends (remove_friend s user friend).0 a b ≡ true
    → are_friends s a b ≡ true
remove_friend_gains s user friend a b h joined =
    ground (arith, remove_friend_effect s user friend a b h, joined)

finish_answer-Gains :
    (C : Type 0) (a b user : String) (r : FriendRequest) (accept added : Bool)
    (c : MemoryStore × Bool)
    → IsSymmetric c.0
    → (are_friends c.0 a b ≡ true → C)
    → Gains C a b (finish_answer user r accept added c)
unfolding finish_answer Gains
finish_answer-Gains C a b user r accept added (s, true) h gain = gain
finish_answer-Gains C a b user r accept true (s, false) h gain =
    λ e. gain (remove_friend_gains s r.from_id r.to_id a b h e)
finish_answer-Gains C a b user r accept false (s, false) h gain = gain

answer_friend-Gains :
    (C : Type 0) (a b : String) (now : ℕ) (s : MemoryStore) (user flag : String) (r : FriendRequest)
    (action : Option Bool)
    → IsSymmetric s
    → are_friends s a b ≡ false
    → (are_pair r.from_id r.to_id a b ≡ true → C)
    → Gains C a b (answer_friend now s user flag r action)
unfolding answer_friend
answer_friend-Gains C a b now s user flag r none h apart pair = no_gain C a b _ apart
answer_friend-Gains C a b now s user flag r (some true) h apart pair =
    let added = add_friend s now r.from_id r.to_id in
    let done = handle_friend_request added.0 flag "accepted" in
    let same = handled_friendships added.0 flag "accepted" in
    finish_answer-Gains C a b user r true added.1 done
      (same-IsSymmetric added.0 done.0 same (friends-IsSymmetric s now r.from_id r.to_id h).0)
      (λ joined. pair (
        add_friend_gains s now r.from_id r.to_id a b h apart
          (sym (same_friends added.0 done.0 a b same) ∙ joined)))
answer_friend-Gains C a b now s user flag r (some false) h apart pair =
    let done = handle_friend_request s flag "rejected" in
    let same = handled_friendships s flag "rejected" in
    finish_answer-Gains C a b user r false false done (same-IsSymmetric s done.0 same h) (λ joined.
      let before : are_friends s a b ≡ true = sym (same_friends s done.0 a b same) ∙ joined in
      absurd (cc (before, apart)))

pub handle_friend_handle-Gains :
    (a b : String) (now : ℕ) (s : MemoryStore) (user : String) (params : Option Fields)
    → IsSymmetric s
    → are_friends s a b ≡ false
    → Gains (Asked s user a b) a b (handle_friend_handle now s user params)
unfolding handle_friend_handle get_friend_request
handle_friend_handle-Gains a b now s user params h apart =
    let G = Gains (Asked s user a b) a b in
    with_params-keeps G s user _ params _ (λ _. no_gain _ a b _ apart)
      (λ _ fields.
        let flag = get_string "flag" fields in
        elim (Option-cases (lookup flag s.friend_requests)) [
          | inl absent ↦ rw absent (no_gain _ a b _ apart)
          | inr (r, found) ↦ rw found (
              if-cases G (not (r.to_id == user) || not (r.status == "pending"))
                (λ _. no_gain _ a b _ apart)
                (λ passed.
                  answer_friend-Gains (Asked s user a b) a b now s user flag r
                    (accepts (get_string "action" fields)) h apart
                    (λ pair. (
                      flag,
                      (
                        r,
                        (
                          found,
                          (
                            ground (arith, passed, eq_iff r.status "pending"),
                            (ground (arith, passed, eq_iff r.to_id user), pair),
                          ),
                        ),
                      ),
                    ))))
        ])

-- A request changes no friendship.
ask_friend_friendships :
    (rt : Runtime) (host : Host) (now : ℕ) (s : MemoryStore) (user target comment : String)
    → (ask_friend rt host now s user target comment).0.friendships ≡ s.friendships
unfolding ask_friend create_friend_request
ask_friend_friendships rt host now s user target comment =
    let P = λ (h : Handled). h.0.friendships ≡ s.friendships in
    if-cases P (target == "" || target == user) (λ _. refl)
      (λ _.
        if-cases P (ltb 200 (host.byte_len comment)) (λ _. refl)
          (λ _.
            if-cases P (not (is_some (get_user s target))) (λ _. refl)
              (λ _.
                if-cases P (is_either_blocked s user target) (λ _. refl)
                  (λ _.
                    if-cases P (are_friends s user target) (λ _. refl)
                      (λ _.
                        if-cases P (any_between user target (get_pending_friend_requests s user))
                          (λ _. refl) (λ _. refl))))))

pub handle_ask_friend_friendships :
    (rt : Runtime) (host : Host) (now : ℕ) (s : MemoryStore) (user : String)
    (params : Option Fields)
    → (handle_ask_friend rt host now s user params).0.friendships ≡ s.friendships
unfolding handle_ask_friend
handle_ask_friend_friendships rt host now s user params =
    with_params-keeps (λ (h : Handled). h.0.friendships ≡ s.friendships) s user _ params _
      (λ _. refl)
      (λ _ fields.
        ask_friend_friendships rt host now s user (host.trim_space (get_string "user_id" fields))
          (host.trim_space (get_string "comment" fields)))

pub removal_store :
    (user friend : String) (c : MemoryStore × Bool) → (answer_removal user friend c).0 ≡ c.0
removal_store user friend (s, false) = refl
removal_store user friend (s, true) = refl

pub handle_remove_friend-Gains :
    (C : Type 0) (a b : String) (s : MemoryStore) (user : String) (params : Option Fields)
    → IsSymmetric s
    → are_friends s a b ≡ false
    → Gains C a b (handle_remove_friend s user params)
unfolding handle_remove_friend Gains
handle_remove_friend-Gains C a b s user params h apart =
    with_params-keeps (Gains C a b) s user _ params _ (λ _ e. absurd (cc (apart, e)))
      (λ _ fields e.
        let friend = get_string "user_id" fields in
        let c = remove_friend s user friend in
        let joined : are_friends c.0 a b ≡ true = rw (sym (removal_store user friend c)) e in
        let before = remove_friend_gains s user friend a b h joined in absurd (cc (before, apart)))

pub from_gains :
    (C : Type 0) (a b : String) (h : Handled) → Gains C a b h → are_friends h.0 a b ≡ true → C
unfolding Gains
from_gains C a b h gain = gain
