-- ===== src/Consensus/Received.antt =====
-- `_round_received` and the famous witnesses that it counts.
pub mod Laws
use hashgraph.Prelude.{
  ℕ, ◌≡◌, String, Bool, true, false, ◌&&◌, not, Option, none, some, List, [], ◌∷◌, string_eq,
  nat_eq, nat_ord, leb, if◌then◌else◌, all, any, is_empty, length, sort_on,
}
use hashgraph.Dict.{Dict, get, get_or, keys}
use hashgraph.Consensus.Membership.{supermajority_threshold}
use hashgraph.Consensus.Rounds.{Witnesses, WitnessesByRound, member_count}
use hashgraph.Consensus.Fame.{Decision}

-- witness id -> decision, for each round
abbrev pub FameByRound : Type 0
FameByRound = Dict ℕ (Dict String Decision)

-- fame_by_round.get(round_no, {}).get(witness_id, {})
unfoldable pub fame_of : FameByRound → ℕ → String → Option Decision
fame_of fame round_no witness_id = get witness_id (get_or round_no [] fame)

abbrev pub is_decided : Option Decision → Bool
is_decided none = false
is_decided (some d) = d.decided

abbrev pub is_famous : Option Decision → Bool
is_famous none = false
is_famous (some d) = d.famous

-- The witnesses of one round that were decided to be famous.
unfoldable pub famous_of : FameByRound → ℕ → Witnesses → Witnesses
famous_of fame round_no [] = []
famous_of fame round_no ((creator, witness_id) ∷ rest) =
    let kept = famous_of fame round_no rest in
    if is_decided (fame_of fame round_no witness_id) && is_famous (fame_of fame round_no witness_id)
    then (creator, witness_id) ∷ kept
    else kept

unfoldable pub famous_by_round : FameByRound → WitnessesByRound → WitnessesByRound
famous_by_round fame [] = []
famous_by_round fame ((round_no, witnesses) ∷ rest) =
    (round_no, famous_of fame round_no witnesses) ∷ famous_by_round fame rest

-- The creators whose witness sees the event.
unfoldable pub seeing_creators : (String → String → Bool) → String → Witnesses → List String
seeing_creators can_see event_id [] = []
seeing_creators can_see event_id ((creator, witness_id) ∷ rest) =
    let others = seeing_creators can_see event_id rest in
    if can_see witness_id event_id then creator ∷ others else others

module _ (can_see : String → String → Bool) (members : List String) (by_round : WitnessesByRound)
    (fame : FameByRound) where
  -- The witnesses that a round counts: the famous ones where every fame is decided, all of them
  -- where none is, and `none` for a round that is passed over.
  unfoldable pub counted_witnesses : ℕ → Option Witnesses
  counted_witnesses round_no =
      let fame_state = get_or round_no [] fame in
      if not (is_empty fame_state) && all (λ e. e.1.decided) fame_state
      then some (get_or round_no [] (famous_by_round fame by_round))
      else if not (is_empty fame_state) && any (λ e. e.1.decided) fame_state
      then none
      else some (get_or round_no [] by_round)

  unfoldable pub enough_see : String → Witnesses → Bool
  enough_see event_id witnesses =
      leb (supermajority_threshold (length members))
        (member_count members (seeing_creators can_see event_id witnesses))

  unfoldable pub receives : String → ℕ → Bool
  unfolding counted_witnesses enough_see
  receives event_id round_no = elim (counted_witnesses round_no) [
    | none ↦ false
    | some witnesses ↦ enough_see event_id witnesses
  ]

  -- The loop over the rounds.
  unfoldable pub first_receiving : String → List ℕ → Option ℕ
  first_receiving event_id [] = none
  first_receiving event_id (round_no ∷ rounds) =
      let later = first_receiving event_id rounds in
      if receives event_id round_no then some round_no else later

  unfoldable pub round_received : String → Option ℕ
  unfolding first_receiving receives
  round_received event_id = first_receiving event_id (sort_on (λ r. r) (keys by_round))
