-- ===== src/Protocol.antt =====
-- server/internal/protocol/protocol.go: the data of messages as the server exchanges them, and the
-- decoded JSON values that a segment carries.
use zzzproject.Base.{ℕ, String, Bool, Option, none, some, ◌==◌, if◌then◌else◌}

-- interface{} after json.Unmarshal. A number keeps its literal: nothing modelled computes with it.
mutual
  pub data Json : Type 0 where
    null : Json
    boolean : Bool → Json
    number : String → Json
    text : String → Json
    array : Items → Json
    object : Fields → Json

  pub data Items : Type 0 where
    nil : Items
    cons : Json → Items → Items

  pub data Fields : Type 0 where
    end : Fields
    field : String → Json → Fields → Fields

pub record MessageSegment : Type 0 where
  pub type : String
  pub fields : Fields

pub record Sender : Type 0 where
  pub user_id : String
  pub nickname : String
  pub avatar : String

pub record Reaction : Type 0 where
  pub emoji_id : String
  pub count : ℕ

-- data[key]
unfoldable pub get : String → Fields → Option Json
get key end = none
get key (field k v rest) = if k == key then some v else get key rest

-- `value, _ := data[key].(string)`: the empty text if there is none.
abbrev pub as_string : Option Json → String
as_string (some (text t)) = t
as_string _ = ""

unfoldable pub get_string : String → Fields → String
unfolding get
get_string key data' = as_string (get key data')
