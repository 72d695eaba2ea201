-- ===== src/Store/Media.antt =====
-- The methods of server/internal/store/memory.go for forwarded messages and media files.
use zzzproject.Base.{
  ℕ, String, Bool, true, false, not, ◌||◌, Option, List, length, take, ltb, eqb, if◌then◌else◌,
  lookup, insert, remove,
}
use Prim.Native.Nat.{Ordering}
use zzzproject.Store.Types.{Message, ForwardMessage, MediaFile}
use zzzproject.Store.State.{Runtime, MemoryStore}
use zzzproject.Store.Groups.{values_of}

-- StoreForward; the clock is read twice.
unfoldable store_forward :
    Runtime → MemoryStore → ℕ → ℕ → String → List Message → MemoryStore × ForwardMessage
store_forward rt s now later conversation messages =
    let forward : ForwardMessage = record {
      id = rt.forward_id now;
      conversation_id = conversation;
      messages = messages;
      created_at = later;
    } in
    (record s { forwards = insert forward.id forward s.forwards }, forward)

unfoldable get_forward : MemoryStore → String → Option ForwardMessage
get_forward s id = lookup id s.forwards

unfoldable store_media : MemoryStore → MediaFile → MemoryStore
store_media s file = record s { media_files = insert file.id file s.media_files }

unfoldable get_media : MemoryStore → String → Option MediaFile
get_media s id = lookup id s.media_files

-- `a > b` of texts.
abbrev pub text_after : String → String → Bool
text_after a b = elim (Prim.Native.String.compare a b) [ Ordering.gt ↦ true | _ ↦ false ]

-- The newest first, and of two at one time the one with the later identifier.
abbrev pub newer : ℕ → String → ℕ → String → Bool
newer time id time' id' = if eqb time time' then text_after id id' else ltb time' time

-- `if limit > 0 && len(result) > limit { result = result[:limit] }`; a negative limit acts as 0 does.
abbrev pub first_of : {A : Type 0} → ℕ → List A → List A
first_of limit list = if eqb limit 0 || not (ltb limit (length list)) then list else take limit list

-- GetMediaFiles; sort.Slice is an argument.
unfoldable get_media_files :
    ((MediaFile → MediaFile → Bool) → List MediaFile → List MediaFile)
    → MemoryStore
    → ℕ
    → List MediaFile
get_media_files sort_slice s limit = first_of limit (
    sort_slice (λ (a b : MediaFile). newer a.created_at a.id b.created_at b.id)
      (values_of s.media_files))

unfoldable delete_media : MemoryStore → String → MemoryStore
delete_media s id = record s { media_files = remove id s.media_files }
