-- ===== src/Fairy/Scheduler/Actors.antt =====
-- The actor goroutines of server/internal/fairy/scheduler.go. They are a list with the conversation
-- and the program counter of each, so that two goroutines of one conversation stand in it twice; two
-- at the same point cannot be told apart, and a step is made by the first of them.
use zzzproject.Base.{
  String, ◌≡◌, refl, Bool, true, false, ◌&&◌, Option, none, some, [], ◌∷◌, ◌++◌, arith, ◌==◌,
  eq_iff, if◌then◌else◌, Map, lookup, insert, remove, Unique, remove_absent,
}

-- Where an actor stands: before its slot, between turns with the slot, or in a turn.
pub data Phase : Type 0 where
  waiting ready executing : Phase

abbrev is_at : Phase → Phase → Bool
is_at waiting waiting = true
is_at ready ready = true
is_at executing executing = true
is_at _ _ = false

-- The phase, if an actor of this conversation is at it.
unfoldable pub at_phase : String → Phase → Map Phase → Option Phase
at_phase id p [] = none
at_phase id p ((k, q) ∷ m) =
    let rest = at_phase id p m in if (k == id) && is_at p q then some p else rest

-- One actor of this conversation goes from a phase to another.
unfoldable pub move : String → Phase → Phase → Map Phase → Map Phase
move id p next [] = []
move id p next ((k, q) ∷ m) =
    let rest = move id p next m in if (k == id) && is_at p q then (k, next) ∷ m else (k, q) ∷ rest

-- One actor of this conversation that is at this phase returns.
unfoldable pub leave : String → Phase → Map Phase → Map Phase
leave id p [] = []
leave id p ((k, q) ∷ m) =
    let rest = leave id p m in if (k == id) && is_at p q then m else (k, q) ∷ rest

is_at_lem : (p q : Phase) → is_at p q ≡ true → q ≡ p
is_at_lem waiting waiting h = refl
is_at_lem ready ready h = refl
is_at_lem executing executing h = refl
is_at_lem waiting ready h = cc h
is_at_lem waiting executing h = cc h
is_at_lem ready waiting h = cc h
is_at_lem ready executing h = cc h
is_at_lem executing waiting h = cc h
is_at_lem executing ready h = cc h

at_phase-absent :
    (id : String) (p : Phase) (m : Map Phase) → lookup id m ≡ none → at_phase id p m ≡ none
unfolding at_phase lookup
at_phase-absent id p [] h = refl
at_phase-absent id p ((k, q) ∷ m) h = ground (arith, at_phase-absent id p m)

at_phase-same : (id : String) (p r : Phase) (m : Map Phase) → at_phase id p m ≡ some r → r ≡ p
unfolding at_phase
at_phase-same id p r [] h = cc h
at_phase-same id p r ((k, q) ∷ m) h = ground (arith, at_phase-same id p r m)

-- Where no conversation has two actors, the one that is at the phase is the conversation's.
pub at_phase-lookup :
    (id : String) (p r : Phase) (m : Map Phase)
    → Unique m
    → at_phase id p m ≡ some r
    → lookup id m ≡ some p
unfolding at_phase lookup
at_phase-lookup id p r [] u h = cc h
at_phase-lookup id p r ((k, q) ∷ m) u h =
    ground
      (arith, at_phase-lookup id p r m u.1, at_phase-absent id p m, is_at_lem p q, eq_iff k id, u.0)

pub move-insert :
    (id : String) (p next r : Phase) (m : Map Phase)
    → Unique m
    → at_phase id p m ≡ some r
    → move id p next m ≡ insert id next m
unfolding at_phase move insert
move-insert id p next r [] u h = cc h
move-insert id p next r ((k, q) ∷ m) u h =
    ground (arith, move-insert id p next r m u.1, at_phase-absent id p m, eq_iff k id, u.0)

pub leave-remove :
    (id : String) (p r : Phase) (m : Map Phase)
    → Unique m
    → at_phase id p m ≡ some r
    → leave id p m ≡ remove id m
unfolding at_phase leave remove
leave-remove id p r [] u h = refl
leave-remove id p r ((k, q) ∷ m) u h =
    ground (
      arith,
      leave-remove id p r m u.1,
      at_phase-absent id p m,
      remove_absent id m,
      eq_iff k id,
      u.0,
    )

-- A goroutine that starts where its conversation has none.
pub start-insert :
    (id : String) (p : Phase) (m : Map Phase)
    → lookup id m ≡ none
    → m ++ (id, p) ∷ [] ≡ insert id p m
unfolding lookup insert
start-insert id p [] h = refl
start-insert id p ((k, q) ∷ m) h = ground (arith, start-insert id p m)
