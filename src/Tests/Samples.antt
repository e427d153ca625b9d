-- ===== src/Tests/Samples.antt =====
-- Events, clocks and members for the runs.
use hashgraph.Prelude.{
  ℕ, ◌==◌, string_eq, if◌then◌else◌, String, Bool, true, false, none, some, List, [], ◌∷◌,
}
use hashgraph.Models.{Event, class_a, pending, Hop}
use hashgraph.VectorClock.{Clock}
use Prim.Native.String.{◌++◌ as ◌+++◌}
use hashgraph.Checkpoint.{Hashes, CheckpointProposal}
use hashgraph.Consensus.Ancestry.{Events}
use hashgraph.Consensus.Membership.{MembershipEntry}
use hashgraph.Consensus.Rounds.{Witnesses, WitnessesByRound}

abbrev pub clock_a : Clock
clock_a = ("a", 1) ∷ []

abbrev pub clock_ab : Clock
clock_ab = ("a", 1) ∷ ("b", 1) ∷ []

abbrev pub clock_abc : Clock
clock_abc = ("a", 2) ∷ ("b", 1) ∷ ("c", 1) ∷ []

abbrev pub event_of : String → String → List String → Event
event_of id creator parents = record {
  id = id;
  cls = class_a;
  source = creator;
  creator = creator;
  ts_local = 5;
  vclock = [];
  parents = parents;
  self_parent_id = none;
  other_parent_id = none;
  payload = [];
  sig = none;
  consensus_ts = none;
  lamport_ts = none;
  round = none;
  round_received = none;
  is_witness = false;
  is_famous_witness = false;
  fame_decided = false;
  fame_decision_round = none;
  fame_decision_kind = pending;
  fame_needs_coin = false;
  fame_coin_used = false;
  fame_coin_round = none;
  fame_vote_round = none;
  fame_vote_yes = 0;
  fame_vote_no = 0;
}

abbrev pub first_event : Event
first_event = event_of "a0" "a" []

abbrev pub second_event : Event
second_event = event_of "b0" "b" ("a0" ∷ [])

abbrev pub topo : List Event
topo = first_event ∷ second_event ∷ []

abbrev pub by_id : Events
by_id = ("a0", first_event) ∷ ("b0", second_event) ∷ []

abbrev pub depth : String → ℕ
depth k = if k == "b0" then 1 else 0

abbrev pub three : List String
three = "a" ∷ "b" ∷ "c" ∷ []

abbrev pub entries : List MembershipEntry
entries =
    record { node_id = " a "; address = "h"; role = "peer"; is_self = false }
    ∷ record { node_id = ""; address = "h"; role = "peer"; is_self = false }
    ∷ []

abbrev pub everyone_sees : String → String → Bool
everyone_sees _ _ = true

abbrev pub round_zero : Witnesses
round_zero = ("a", "a0") ∷ ("b", "b0") ∷ ("c", "c0") ∷ []

abbrev pub round_one : Witnesses
round_one = ("a", "a1") ∷ ("b", "b1") ∷ ("c", "c1") ∷ []

abbrev pub by_round : WitnessesByRound
by_round = (0, round_zero) ∷ (1, round_one) ∷ []

-- A digest that is 1 for one text and 0 for the others.
abbrev pub digest : String → List ℕ
digest s = if s == "w:2" then 1 ∷ [] else 0 ∷ []

abbrev pub hops : List Hop
hops =
    record { node = "a"; ts = some 4 }
    ∷ record { node = "b"; ts = some 7 }
    ∷ record { node = "c"; ts = some 5 }
    ∷ []

-- Encoders and hashes that keep little of what they are given.
abbrev pub hashes : Hashes
hashes = record {
  payload_json = λ payload. "";
  leaf_json = λ leaf. leaf.id;
  body_json = λ body. body.merkle_root;
  sha256 = λ s. s;
  hmac = λ key s. key +++ s;
}

abbrev pub proposal_of : String → String → CheckpointProposal
proposal_of node signature = record {
  round_received = 1;
  merkle_root = "root";
  members_snapshot_hash = "members";
  proposer_node_id = node;
  signature = signature;
}
