-- ===== src/Store/Messages/Paging.antt =====
-- GetMessagesBefore, which pages back through a conversation.
use Prim.Native.Nat.{min}
use zzzproject.Base.{
  ℕ, ◌-◌, ◌≤◌, String, ◌≡◌, refl, inl, inr, Bool, true, not, ◌||◌, ◌&&◌, List, [], ◌∷◌, ◌++◌, map,
  arith, Bool-cases, ltb, eqb, ◌==◌, if◌then◌else◌, lookup, length, take, drop, length-take,
  length-drop, take-drop,
}
use zzzproject.Store.Types.{Message}
use zzzproject.Store.State.{Runtime, MessageRef, MemoryStore}
use zzzproject.Store.Messages.{refs_of, snapshot, index_of, window_end, get_messages_before}

index_of-le :
    (heap : MessageRef → Message) (id : String) (refs : List MessageRef)
    → index_of heap id refs ≤ length refs
unfolding index_of
index_of-le heap id [] = omega arith
index_of-le heap id (r ∷ refs) = ground (arith, index_of-le heap id refs)

window_end-le :
    (s : MemoryStore) (before : String) (refs : List MessageRef)
    → window_end s before refs ≤ length refs
window_end-le s before refs = ground (arith, index_of-le s.heap before refs)

-- No message of the list has this identifier.
abbrev pub unnamed : (MessageRef → Message) → String → List MessageRef → Bool
unnamed heap id [] = true
unnamed heap id (r ∷ refs) = not ((heap r).id == id) && unnamed heap id refs

-- The list is empty or its first message has this identifier.
abbrev pub head_is : (MessageRef → Message) → String → List MessageRef → Bool
head_is heap id [] = true
head_is heap id (r ∷ refs) = (heap r).id == id

-- What stands before the named message and what stands from it on; where none is named, everything
-- stands before.
abbrev pub parted : (MessageRef → Message) → String → List MessageRef → List MessageRef → Bool
parted heap before known rest =
    if before == ""
    then eqb (length rest) 0
    else unnamed heap before known && head_is heap before rest

parted-index_of :
    (heap : MessageRef → Message) (id : String) (refs : List MessageRef)
    → let k = index_of heap id refs in
      (unnamed heap id (take k refs) && head_is heap id (drop k refs)) ≡ true
unfolding index_of
parted-index_of heap id [] = refl
parted-index_of heap id (r ∷ refs) = elim (Bool-cases ((heap r).id == id)) [
  | inl named ↦ rw (named, index_of) (ground (arith, named))
  | inr other ↦ rw (other, index_of) (ground (arith, other, parted-index_of heap id refs))
]

parted-window_end :
    (s : MemoryStore) (before : String) (refs : List MessageRef)
    → let k = window_end s before refs in parted s.heap before (take k refs) (drop k refs) ≡ true
parted-window_end s before refs =
    ground (arith, parted-index_of s.heap before refs, length-drop (window_end s before refs) refs)

-- A page is the last messages, in order, of those that stand before the first one with the named
-- identifier, of the whole conversation where none is named or the name is not found: as many as the
-- limit says, or every one where the limit is 0 or there are fewer.
pub get_messages_before_page :
    (rt : Runtime) (s : MemoryStore) (conversation before : String) (limit : ℕ)
    → (known : List MessageRef) × (rest : List MessageRef) × (earlier : List MessageRef)
      × (page : List MessageRef) × ((known ++ rest ≡ refs_of (lookup conversation s.messages))
          × (parted s.heap before known rest ≡ true)
          × (earlier ++ page ≡ known)
          × (get_messages_before rt s conversation before limit ≡ map (snapshot rt s) page)
          × (length page ≡ (if eqb limit 0 then length known else min limit (length known))))
unfolding get_messages_before
get_messages_before_page rt s conversation before limit =
    let refs = refs_of (lookup conversation s.messages) in
    let k = window_end s before refs in
    let known = take k refs in
    let size = if eqb limit 0 || ltb k limit then k else limit in
    let start = k - size in
    (
      known,
      drop k refs,
      take start known,
      drop start known,
      (
        take-drop k refs,
        parted-window_end s before refs,
        take-drop start known,
        refl,
        ground (arith, length-drop start known, length-take k refs, window_end-le s before refs),
      ),
    )
