-- ===== src/Consensus/Timestamp.antt =====
-- `_consensus_timestamp`, and the `median` of mdrj/utils.py.
pub mod Laws
use hashgraph.Prelude.{
  ℕ, zero, suc, ◌+◌, ◌-◌, ◌/◌, ◌%◌, ◌≡◌, ◌||◌, ◌&&◌, String, Bool, true, false, not, Option, none,
  some, List, [], ◌∷◌, string_eq, nat_eq, nat_ord, ltb, leb, if◌then◌else◌, contains, length,
  sort_on, strip,
}
use hashgraph.Dict.{Dict, get, put, values}
use hashgraph.Models.{Time, Hop}

-- ordered[i]; the index is always in range.
abbrev pub item : List Time → ℕ → Time
item [] i = 0
item (x ∷ xs) zero = x
item (x ∷ xs) (suc i) = item xs i

-- `midpoint a b` is (a + b) / 2 on doubles. `None` stands for the error on an empty sequence.
unfoldable pub median : (Time → Time → Time) → List Time → Option Time
median midpoint [] = none
median midpoint (v ∷ vs) =
    let ordered = sort_on (λ t. t) (v ∷ vs) in
    let mid = length ordered / 2 in
    if nat_eq.beq (length ordered % 2) 1
    then some (item ordered mid)
    else some (midpoint (item ordered (mid - 1)) (item ordered mid))

abbrev pub Observations : Type 0
Observations = Dict String Time

abbrev earlier_than : Time → Option Time → Bool
earlier_than ts none = true
earlier_than ts (some seen) = ltb ts seen

-- One hop: a member's earliest time is kept.
abbrev pub observe_at : List String → String → Option Time → Observations → Observations
observe_at members node_id none seen = seen
observe_at members node_id (some ts) seen =
    if contains members node_id && earlier_than ts (get node_id seen)
    then put node_id ts seen
    else seen

unfoldable pub observe : List String → Observations → List Hop → Observations
observe members seen [] = seen
observe members seen (hop ∷ hops) =
    observe members (observe_at members (strip hop.node) hop.ts seen) hops

unfoldable pub consensus_timestamp : (Time → Time → Time) → List String → ℕ → List Hop → Option Time
unfolding observe median
consensus_timestamp midpoint members quorum hops =
    let observations = observe members [] hops in
    if ltb (length observations) quorum then none else median midpoint (values observations)
