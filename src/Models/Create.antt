-- ===== src/Models/Create.antt =====
-- mdrj/models.py `Event.create` and mdrj/utils.py `compute_event_id`: a new event with its id.
use hashgraph.Prelude.{String, false, Option, none, some, List, [], ◌∷◌, string_eq}
use Prim.Native.String.{◌++◌ as ◌+++◌}
use hashgraph.Dict.{Dict}
use hashgraph.VectorClock.{Clock, lamport}
use hashgraph.Models.{Event, EventClass, Time, Json, pending, or_default}

-- What the id of an event covers, beside the payload.
pub record Header : Type 0 where
  pub cls : EventClass
  pub source : String
  pub ts_local : Time
  pub vclock : Clock
  pub parents : List String

-- The standard library's JSON texts of a header and of a payload, and the hexadecimal SHA-256.
pub record Digests : Type 0 where
  pub header_json : Header → String
  pub payload_json : Dict String Json → String
  pub sha256 : String → String

unfoldable pub compute_event_id : Digests → Header → Dict String Json → String
compute_event_id d header payload =
    d.sha256 (d.header_json header +++ ("::" +++ d.payload_json payload))

abbrev pub first_of {ℓ} : {A : Type ℓ} → List A → Option A
first_of [] = none
first_of (x ∷ xs) = some x

abbrev pub second_of {ℓ} : {A : Type ℓ} → List A → Option A
second_of [] = none
second_of (x ∷ xs) = first_of xs

-- `if parent_id is None and parents: parent_id = parents[i]`
abbrev pub parent_or {ℓ} : {A : Type ℓ} → Option A → Option A → Option A
parent_or none default = default
parent_or (some p) default = some p

-- creator or source
abbrev pub creator_or : Option String → String → String
creator_or none source = source
creator_or (some creator) source = or_default creator source

-- The arguments of `create`.
pub record NewEvent : Type 0 where
  pub cls : EventClass
  pub source : String
  pub ts_local : Time
  pub vclock : Clock
  pub parents : List String
  pub payload : Dict String Json
  pub sig : Option String
  pub creator : Option String
  pub self_parent_id : Option String
  pub other_parent_id : Option String

unfoldable pub header_of : NewEvent → Header
header_of n = record {
  cls = n.cls;
  source = n.source;
  ts_local = n.ts_local;
  vclock = n.vclock;
  parents = n.parents;
}

unfoldable pub create : Digests → NewEvent → Event
unfolding compute_event_id header_of
create d n = record {
  id = compute_event_id d (header_of n) n.payload;
  cls = n.cls;
  source = n.source;
  creator = creator_or n.creator n.source;
  ts_local = n.ts_local;
  vclock = n.vclock;
  parents = n.parents;
  self_parent_id = parent_or n.self_parent_id (first_of n.parents);
  other_parent_id = parent_or n.other_parent_id (second_of n.parents);
  payload = n.payload;
  sig = n.sig;
  consensus_ts = none;
  lamport_ts = some (lamport n.vclock);
  round = none;
  round_received = none;
  is_witness = false;
  is_famous_witness = false;
  fame_decided = false;
  fame_decision_round = none;
  fame_decision_kind = pending;
  fame_needs_coin = false;
  fame_coin_used = false;
  fame_coin_round = none;
  fame_vote_round = none;
  fame_vote_yes = 0;
  fame_vote_no = 0;
}
