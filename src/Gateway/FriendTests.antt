-- ===== src/Gateway/FriendTests.antt =====
-- Friend requests on concrete users.
use zzzproject.Base.{String, ◌≡◌, refl, true, false, none, some, [], ◌∷◌, lookup, insert}
use zzzproject.Protocol.{text, Fields, end, field, get, get_string}
use zzzproject.Store.Types.{User}
use zzzproject.Store.State.{Runtime, MemoryStore, new_memory_store}
use zzzproject.Store.Friends.{are_friends, get_friend_request}
use zzzproject.Gateway.Requests.{Host}
use zzzproject.Gateway.Friendship.Gains.{Asked}
use zzzproject.Gateway.Friendship.Consent.{
  friend_request, friend_request_handle, handle_friend_action, FriendsReachable, start, request,
  elsewhere, friendship_needs_consent,
}

abbrev host : Host
host = record {
  trim_space = λ t. t;
  byte_len = λ t. 1;
  has_control = λ t. false;
  exact_natural = λ literal. none;
  group_id = λ now. "g";
  sort_stable = λ less ms. ms;
}

abbrev runtime : Runtime
runtime = record {
  message_id = λ n. "m";
  request_id = λ n. "r";
  announcement_id = λ t n. "a";
  forward_id = λ n. "f";
  message_fingerprint = λ conversation segments. some conversation;
  interaction_fingerprint = λ e. none;
  sort_strings = λ l. l;
}

abbrev account : String → User
account id = record {
  id = id;
  nickname = "";
  avatar = "";
  bio = "";
  card_background_url = "";
  card_background_color = "";
  card_background_sensitive = false;
  show_mutual_groups = false;
  show_account_id = false;
  online = false;
  password_hash = "";
  created_at = 1;
}

abbrev registered : MemoryStore
registered = record new_memory_store {
  users = ("ann", account "ann") ∷ ("bob", account "bob") ∷ [];
}

abbrev asked : MemoryStore
asked =
    (handle_friend_action runtime host 2 registered "ann" friend_request
      (some (field "user_id" (text "bob") end))).0

asked-FriendsReachable : FriendsReachable runtime host asked
asked-FriendsReachable =
    request 2 registered "ann" friend_request (some (field "user_id" (text "bob") end))
      (elsewhere new_memory_store registered refl start)

abbrev acceptance : Fields
acceptance = field "flag" (text "r") (field "action" (text "accept") end)

-- Before the answer, and after it.
not_yet : are_friends asked "ann" "bob" ≡ false
unfolding lookup insert get get_string handle_friend_action new_memory_store
    zzzproject.Gateway.Requests.with_params zzzproject.Gateway.Friendship.handle_ask_friend
    zzzproject.Gateway.Friendship.ask_friend zzzproject.Gateway.Friendship.is_either_blocked
    zzzproject.Gateway.Friendship.any_between zzzproject.Store.Friends.are_friends
    zzzproject.Store.Friends.get_pending_friend_requests
    zzzproject.Store.Friends.create_friend_request zzzproject.Store.Profile.is_user_blocked
    zzzproject.Store.Users.get_user
not_yet = refl

at_last :
    are_friends
      (handle_friend_action runtime host 3 asked "bob" friend_request_handle (some acceptance)).0
      "ann"
      "bob"
    ≡ true
unfolding lookup insert get get_string handle_friend_action new_memory_store
    zzzproject.Gateway.Requests.with_params zzzproject.Gateway.Friendship.handle_ask_friend
    zzzproject.Gateway.Friendship.ask_friend zzzproject.Gateway.Friendship.is_either_blocked
    zzzproject.Gateway.Friendship.any_between zzzproject.Store.Friends.are_friends
    zzzproject.Store.Friends.get_pending_friend_requests
    zzzproject.Store.Friends.create_friend_request zzzproject.Store.Profile.is_user_blocked
    zzzproject.Store.Users.get_user zzzproject.Gateway.Friendship.handle_friend_handle
    zzzproject.Gateway.Friendship.answer_friend zzzproject.Gateway.Friendship.finish_answer
    zzzproject.Store.Friends.get_friend_request zzzproject.Store.Friends.add_friend
    zzzproject.Store.Friends.handle_friend_request
at_last = refl

friendship_needs_consent_example : Asked asked "bob" "ann" "bob"
friendship_needs_consent_example =
    friendship_needs_consent runtime host 3 asked "bob" friend_request_handle (some acceptance)
      "ann" "bob" asked-FriendsReachable not_yet at_last
