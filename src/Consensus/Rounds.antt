-- ===== src/Consensus/Rounds.antt =====
-- The first loop of `recompute`: the round of each event, and each round's witnesses.
-- `can_see` is `_can_see` with the graph and its cache supplied (Consensus/Ancestry).
pub mod Laws
pub mod Final
use hashgraph.Prelude.{
  ℕ, suc, ◌+◌, max, ◌≡◌, refl, String, Bool, true, false, ◌&&◌, not, Option, none, some, List, [],
  ◌∷◌, ◌++◌, arith, string_eq, nat_eq, leb, if◌then◌else◌, keep, contains, set_of, length, is_empty,
}
use hashgraph.Dict.{Dict, get, get_or, has, put, keys, values}
use hashgraph.Models.{Event, creator_of}
use hashgraph.Consensus.Membership.{supermajority_threshold}
use hashgraph.Consensus.Ancestry.{Events}

-- creator -> witness id, and the same for each round
abbrev pub Witnesses : Type 0
Witnesses = Dict String String

abbrev pub WitnessesByRound : Type 0
WitnessesByRound = Dict ℕ Witnesses

pub record RoundState : Type 0 where
  pub rounds : Dict String ℕ
  pub witness_flags : Dict String Bool
  pub witnesses_by_round : WitnessesByRound

abbrev pub fresh : RoundState
fresh = record { rounds = []; witness_flags = []; witnesses_by_round = [] }

-- [rounds[p] for p in parents if p in rounds]
unfoldable pub parent_rounds : Dict String ℕ → List String → List ℕ
parent_rounds rounds [] = []
parent_rounds rounds (p ∷ ps) =
    let rest = parent_rounds rounds ps in elim (get p rounds) [ none ↦ rest | some r ↦ r ∷ rest ]

-- max(xs, default=0)
unfoldable pub max_of : List ℕ → ℕ
max_of [] = 0
max_of (x ∷ xs) = max x (max_of xs)

-- The creators of the seen witnesses that are known.
unfoldable pub seen_creators :
    (String → String → Bool) → Events → String → List String → List String
seen_creators can_see by_id event_id [] = []
seen_creators can_see by_id event_id (w ∷ ws) =
    let rest = seen_creators can_see by_id event_id ws in
    elim (get w by_id) [
      | none ↦ rest
      | some witness ↦ if can_see event_id w then creator_of witness ∷ rest else rest
    ]

-- len(set(creators) & set(membership_ids))
unfoldable pub member_count : List String → List String → ℕ
member_count members creators = length (keep (contains members) (set_of creators))

-- The event at its round: a witness where its creator has none in that round.
unfoldable pub enter : RoundState → Event → ℕ → RoundState
enter s event event_round =
    let creator = creator_of event in
    let creator_witnesses = get_or event_round [] s.witnesses_by_round in
    let is_witness = not (has creator creator_witnesses) in
    record {
      rounds = put event.id event_round s.rounds;
      witness_flags = put event.id is_witness s.witness_flags;
      witnesses_by_round =
          put event_round
            (if is_witness then put creator event.id creator_witnesses else creator_witnesses)
            s.witnesses_by_round;
    }

module _ (can_see : String → String → Bool) (by_id : Events) (members : List String) where
  unfoldable pub sees_supermajority : String → List String → Bool
  unfolding seen_creators
  sees_supermajority event_id witness_ids =
      leb (supermajority_threshold (length members))
        (member_count members (seen_creators can_see by_id event_id witness_ids))

  -- One event, with `base_round` computed: the event's own round.
  unfoldable pub round_of : RoundState → Event → ℕ
  unfolding sees_supermajority
  round_of s event =
      let base_round = max_of (parent_rounds s.rounds event.parents) in
      let witness_ids = values (get_or base_round [] s.witnesses_by_round) in
      if not (is_empty witness_ids) && sees_supermajority event.id witness_ids
      then base_round + 1
      else base_round

  unfoldable pub assign_round : RoundState → Event → RoundState
  unfolding round_of enter
  assign_round s event = enter s event (round_of s event)

  unfoldable pub assign_rounds : RoundState → List Event → RoundState
  unfolding assign_round
  assign_rounds s [] = s
  assign_rounds s (event ∷ topo) = assign_rounds (assign_round s event) topo
