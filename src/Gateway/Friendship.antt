-- ===== src/Gateway/Friendship.antt =====
-- The friend requests of users: handleFriendRequest, handleFriendHandle and handleRemoveFriend of
-- server/internal/gateway/gateway.go.
pub mod Gains
pub mod Consent
use Prim.Native.String.{◌++◌}
use zzzproject.Base.{
  ℕ, String, Bool, true, false, not, ◌&&◌, ◌||◌, Option, none, some, List, [], ◌∷◌, ltb, ◌==◌,
  is_some, if◌then◌else◌,
}
use zzzproject.Protocol.{Fields, get_string}
use zzzproject.Store.Types.{User, FriendRequest}
use zzzproject.Store.State.{Runtime, MemoryStore}
use zzzproject.Store.Users.{get_user}
use zzzproject.Store.Profile.{is_user_blocked}
use zzzproject.Store.Friends.{
  are_friends, add_friend, remove_friend, create_friend_request, get_friend_request,
  get_pending_friend_requests, handle_friend_request,
}
use zzzproject.Gateway.Requests.{
  Host, Notice, PushEvent, Output, no_data, friend_requested, rejected, accepted, to_user,
  request_to_user, push_to_user, Handled, reject, with_params, plain_notice,
}

unfoldable pub is_either_blocked : MemoryStore → String → String → Bool
is_either_blocked s first second = is_user_blocked s first second || is_user_blocked s second first

-- The nickname, or the identifier where there is none.
abbrev pub display_name : String → Option User → String
display_name id none = id
display_name id (some u) = if u.nickname == "" then id else u.nickname

-- Whether one of the requests is between the two users.
unfoldable pub any_between : String → String → List FriendRequest → Bool
any_between user target [] = false
any_between user target (r ∷ rs) =
    ((r.from_id == user) && (r.to_id == target))
    || (((r.from_id == target) && (r.to_id == user)) || any_between user target rs)

abbrev request_text : String → String → String
request_text name comment =
    if comment == ""
    then name ++ " wants to connect"
    else (name ++ " wants to connect") ++ (": " ++ comment)

abbrev pub answer_request :
    String → String → String → String → MemoryStore × FriendRequest → Handled
answer_request user target comment name (s, r) = (
  s,
  request_to_user target (record { user_id = user; comment = comment; flag = r.id })
      ∷ push_to_user target
          (record {
            type = "friend_request";
            title = "New friend request";
            body = request_text name comment;
            request_id = r.id;
            user_id = user;
            path = "/contacts";
          })
          ("friend request " ++ r.id)
      ∷ accepted (friend_requested r.id)
      ∷ [],
)

unfoldable pub ask_friend : Runtime → Host → ℕ → MemoryStore → String → String → String → Handled
unfolding is_either_blocked any_between
ask_friend rt host now s user target comment =
    if target == "" || target == user
    then reject s "valid target user required"
    else if ltb 200 (host.byte_len comment)
    then reject s "comment is too long"
    else if not (is_some (get_user s target))
    then reject s "user not found"
    else if is_either_blocked s user target
    then reject s "friend requests are blocked"
    else if are_friends s user target
    then reject s "already friends"
    else if any_between user target (get_pending_friend_requests s user)
    then reject s "friend request already pending"
    else answer_request user target comment (display_name user (get_user s user))
        (create_friend_request rt s now user target comment)

unfoldable pub handle_ask_friend :
    Runtime → Host → ℕ → MemoryStore → String → Option Fields → Handled
unfolding ask_friend
handle_ask_friend rt host now s user params = with_params s user "invalid params" params (λ fields.
    ask_friend rt host now s user (host.trim_space (get_string "user_id" fields))
      (host.trim_space (get_string "comment" fields)))

-- Whether the action accepts; none is the default case of the switch.
abbrev pub accepts : String → Option Bool
accepts action =
    if action == "accept" || action == "accepted"
    then some true
    else if action == "reject" || action == "rejected"
    then some false
    else none

abbrev result_notice : String → Bool → Notice
result_notice user true = plain_notice "friend_add" "" user ""
result_notice user false = record (plain_notice "friend_request_result" "" user "") {
  sub_type = "rejected";
}

abbrev result_text : Bool → String
result_text accept =
    if accept then "accepted your friend request" else "declined your friend request"

-- After the friendship and the request have been changed.
unfoldable pub finish_answer : String → FriendRequest → Bool → Bool → MemoryStore × Bool → Handled
finish_answer user r accept added (s, false) =
    reject (if added then (remove_friend s r.from_id r.to_id).0 else s) "failed to handle request"
finish_answer user r accept added (s, true) = (
  s,
  accepted no_data
      ∷ to_user r.from_id (result_notice user accept)
      ∷ push_to_user r.from_id
          (record {
            type = "friend_request_result";
            title = "Friend request updated";
            body = display_name user (get_user s user) ++ (" " ++ result_text accept);
            request_id = r.id;
            user_id = user;
            path = "/contacts";
          })
          ("friend request result " ++ r.id)
      ∷ [],
)

unfoldable pub answer_friend :
    ℕ → MemoryStore → String → String → FriendRequest → Option Bool → Handled
unfolding finish_answer
answer_friend now s user flag r none = reject s "action must be accept or reject"
answer_friend now s user flag r (some accept) =
    let added = if accept then add_friend s now r.from_id r.to_id else (s, false) in
    finish_answer user r accept added.1
      (handle_friend_request added.0 flag (if accept then "accepted" else "rejected"))

unfoldable pub handle_friend_handle : ℕ → MemoryStore → String → Option Fields → Handled
unfolding answer_friend
handle_friend_handle now s user params = with_params s user "invalid params" params (λ fields.
    let flag = get_string "flag" fields in
    elim (get_friend_request s flag) [
      | none ↦ reject s "friend request not found"
      | some r ↦
          if not (r.to_id == user) || not (r.status == "pending")
          then reject s "friend request not found"
          else answer_friend now s user flag r (accepts (get_string "action" fields))
    ])

abbrev pub answer_removal : String → String → MemoryStore × Bool → Handled
answer_removal user friend (s, false) = reject s "friend relationship not found"
answer_removal user friend (s, true) =
    (s, accepted no_data ∷ to_user friend (plain_notice "friend_remove" "" user "") ∷ [])

unfoldable pub handle_remove_friend : MemoryStore → String → Option Fields → Handled
handle_remove_friend s user params =
    with_params s user "invalid remove_friend params" params (λ fields.
      let friend = get_string "user_id" fields in
      answer_removal user friend (remove_friend s user friend))
