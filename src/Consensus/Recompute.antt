-- ===== src/Consensus/Recompute.antt =====
-- `recompute`: the whole pass over the events in topological order.
pub mod Output
pub mod Index
pub mod Positions
pub mod Appended
use hashgraph.Prelude.{
  ℕ, String, Bool, true, false, Option, none, some, List, [], ◌∷◌, map, string_eq, nat_eq, nat_ord,
  sort_on, length, is_empty, if◌then◌else◌,
}
use hashgraph.Dict.{Dict, get, get_or, put, keys}
use hashgraph.Models.{Event, Time, Hop, DecisionKind, creator_of}
use hashgraph.Consensus.Membership.{MembershipEntry, normalize_membership, supermajority_threshold}
use hashgraph.Consensus.Ancestry.{Events, can_see}
use hashgraph.Consensus.Rounds.{Witnesses, WitnessesByRound, RoundState, fresh, assign_rounds}
use hashgraph.Consensus.Fame.{Decision, undecided, witness_history, resolve_fame}
use hashgraph.Consensus.Received.{FameByRound, fame_of, round_received}
use hashgraph.Consensus.Timestamp.{consensus_timestamp}
use hashgraph.Consensus.Order.{Resolved, total_order}

pub record ConsensusState : Type 0 where
  pub event_id : String
  pub creator : String
  pub self_parent_id : Option String
  pub other_parent_id : Option String
  pub round : ℕ
  pub round_received : Option ℕ
  pub is_witness : Bool
  pub is_famous_witness : Bool
  pub fame_decided : Bool
  pub fame_decision_round : Option ℕ
  pub fame_decision_kind : DecisionKind
  pub fame_needs_coin : Bool
  pub fame_coin_used : Bool
  pub fame_coin_round : Option ℕ
  pub fame_vote_round : Option ℕ
  pub fame_vote_yes : ℕ
  pub fame_vote_no : ℕ
  pub consensus_ts : Option Time

-- by_id = {event.id: event for event in topo}
unfoldable pub index_events : Events → List Event → Events
index_events by_id [] = by_id
index_events by_id (event ∷ topo) = index_events (put event.id event by_id) topo

module _ (sha256 : String → List ℕ) (see : String → String → Bool) (members : List String)
    (by_round : WitnessesByRound) where
  -- The decisions on the witnesses of one round.
  unfoldable pub round_fame : ℕ → Dict String Decision → Witnesses → Dict String Decision
  round_fame round_no decisions [] = decisions
  round_fame round_no decisions ((creator, witness_id) ∷ rest) =
      let history =
        witness_history see members by_round round_no (sort_on (λ r. r) (keys by_round))
          witness_id in
      let threshold = supermajority_threshold (length members) in
      round_fame round_no
        (put witness_id (resolve_fame sha256 witness_id history threshold) decisions) rest

  unfoldable pub fame_decisions : FameByRound
  unfolding round_fame
  fame_decisions =
      map (λ r. (r, round_fame r [] (get_or r [] by_round))) (sort_on (λ r. r) (keys by_round))

-- consensus_ts if round_received is not None else None
abbrev pub time_if_received : Option ℕ → Option Time → Option Time
time_if_received none ts = none
time_if_received (some r) ts = ts

module _ (sha256 : String → List ℕ) (midpoint : Time → Time → Time) (node_id : String)
    (membership : List MembershipEntry) (path_meta_by_event : Dict String (List Hop))
    (topo : List Event) where
  abbrev pub members : List String
  members = normalize_membership node_id membership

  abbrev pub see : String → String → Bool
  see = can_see (index_events [] topo)

  unfoldable pub assigned : RoundState
  assigned = assign_rounds see (index_events [] topo) members fresh topo

  unfoldable pub fame : FameByRound
  fame = fame_decisions sha256 see members assigned.witnesses_by_round

  unfoldable pub received : Event → Option ℕ
  received event = round_received see members assigned.witnesses_by_round fame event.id

  unfoldable pub timestamp : Event → Option Time
  timestamp event =
      consensus_timestamp midpoint members (supermajority_threshold (length members))
        (get_or event.id [] path_meta_by_event)

  -- The round received and the time of each event, by its id.
  unfoldable pub resolve_all : Resolved → List Event → Resolved
  unfolding received timestamp
  resolve_all resolved [] = resolved
  resolve_all resolved (event ∷ rest) =
      resolve_all (put event.id (received event, timestamp event) resolved) rest

  unfoldable pub state_of : Event → ConsensusState
  unfolding received timestamp
  state_of event =
      let round = get_or event.id 0 assigned.rounds in
      let decision : Decision = elim (fame_of fame round event.id) [
        | none ↦ undecided
        | some d ↦ d
      ] in
      record {
        event_id = event.id;
        creator = creator_of event;
        self_parent_id = event.self_parent_id;
        other_parent_id = event.other_parent_id;
        round = round;
        round_received = received event;
        is_witness = get_or event.id false assigned.witness_flags;
        is_famous_witness = decision.famous;
        fame_decided = decision.decided;
        fame_decision_round = decision.decision_round;
        fame_decision_kind = decision.decision_kind;
        fame_needs_coin = decision.needs_coin;
        fame_coin_used = decision.coin_used;
        fame_coin_round = decision.coin_round;
        fame_vote_round = decision.vote_round;
        fame_vote_yes = decision.vote_yes;
        fame_vote_no = decision.vote_no;
        consensus_ts = time_if_received (received event) (timestamp event);
      }

  unfoldable pub recompute : List ConsensusState
  unfolding resolve_all state_of
  recompute = map state_of (total_order (resolve_all [] topo) topo)
