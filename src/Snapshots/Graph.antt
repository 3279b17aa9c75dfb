-- ===== src/Snapshots/Graph.antt =====
-- The derivation graph of a snapshot: the detection of cycles in `_validate_derivation_graph`. The keys of the graph are
-- the texts `kind:identity`; a colour that was never set is white, as in the `defaultdict`.
pub mod Acyclic
pub mod Visits
pub mod Search
use partha.Prelude.{
  ℕ, zero, suc, Bool, true, false, Option, none, some, List, [], ◌∷◌, length, if◌then◌else◌,
}
use partha.Text.{same_text}

pub data Color : Type 0 where
  white grey black : Color

abbrev pub Colors : Type 0
Colors = List ℕ → Color

-- The dictionary `outgoing`, in the order of its insertions.
abbrev pub Outgoing : Type 0
Outgoing = List (List ℕ × List (List ℕ))

abbrev pub get : Outgoing → List ℕ → Option (List (List ℕ))
get [] k = none
get ((key, targets) ∷ outgoing) k = if same_text key k then some targets else get outgoing k

abbrev pub targets_of : Option (List (List ℕ)) → List (List ℕ)
targets_of none = []
targets_of (some targets) = targets

abbrev pub has_key : Outgoing → List ℕ → Bool
has_key [] k = false
has_key ((key, targets) ∷ outgoing) k = if same_text key k then true else has_key outgoing k

abbrev pub paint : Colors → List ℕ → Color → Colors
paint c n x k = if same_text k n then x else c k

-- What a visit comes to: new colours, the exception for a cycle, or the end of the fuel.
pub data Visit : Type 0 where
  done : Colors → Visit
  cycle exhausted : Visit

abbrev pub and_then : Visit → (Colors → Visit) → Visit
and_then (done c) f = f c
and_then cycle f = cycle
and_then exhausted f = exhausted

-- What meeting a target comes to: grey closes a cycle, and a white key is visited.
abbrev pub meet : Color → Bool → Visit → Visit → Visit
meet grey known visited skipped = cycle
meet white true visited skipped = visited
meet white false visited skipped = skipped
meet black known visited skipped = skipped

-- The loop over the targets of a node, with the recursive call as an argument.
unfoldable pub scan : Outgoing → (Colors → List ℕ → Visit) → Colors → List (List ℕ) → Visit
scan outgoing recur c [] = done c
scan outgoing recur c (target ∷ targets) =
    and_then (meet (c target) (has_key outgoing target) (recur c target) (done c))
      (λ c'. scan outgoing recur c' targets)

unfoldable pub visit : Outgoing → ℕ → Colors → List ℕ → Visit
visit outgoing zero c node = exhausted
visit outgoing (suc fuel) c node =
    and_then
      (scan outgoing (visit outgoing fuel) (paint c node grey) (targets_of (get outgoing node)))
      (λ c'. done (paint c' node black))

abbrev pub is_white : Color → Bool
is_white white = true
is_white _ = false

-- `for node in list(outgoing)`, with as much fuel as there are keys.
unfoldable pub visit_all : Outgoing → ℕ → Colors → Outgoing → Visit
unfolding visit
visit_all outgoing fuel c [] = done c
visit_all outgoing fuel c ((node, targets) ∷ rest) =
    and_then (if is_white (c node) then visit outgoing fuel c node else done c)
      (λ c'. visit_all outgoing fuel c' rest)

abbrev pub all_white : Colors
all_white k = white

unfoldable pub detect_cycle : Outgoing → Visit
unfolding visit_all
detect_cycle outgoing = visit_all outgoing (length outgoing) all_white outgoing
