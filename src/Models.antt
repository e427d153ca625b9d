-- ===== src/Models.antt =====
-- mdrj/models.py: events, envelopes and peers.
pub mod Create
pub mod Row
pub mod Wire
use hashgraph.Prelude.{
  ℕ, Bool, true, false, String, Option, some, List, [], ◌∷◌, ◌++◌, ◌==◌, string_eq, if◌then◌else◌,
}
use hashgraph.Dict.{Dict}
use hashgraph.VectorClock.{Clock}

-- A time is a finite, non-negative double, named by its place among those doubles in ascending
-- order, so that the order of times is that of the numbers.
abbrev pub Time : Type 0
Time = ℕ

pub data EventClass : Type 0 where
  class_a class_b class_c : EventClass

abbrev pub class_beq : EventClass → EventClass → Bool
class_beq class_a class_a = true
class_beq class_b class_b = true
class_beq class_c class_c = true
class_beq _ _ = false

pub data DecisionKind : Type 0 where
  pending vote coin_surrogate : DecisionKind

-- What a JSON payload holds.
mutual
  pub data Json : Type 0 where
    null : Json
    boolean : Bool → Json
    number : ℕ → Json
    text : String → Json
    array : Items → Json
    object : Fields → Json

  pub data Items : Type 0 where
    nil : Items
    cons : Json → Items → Items

  pub data Fields : Type 0 where
    end : Fields
    field : String → Json → Fields → Fields

pub record Event : Type 0 where
  pub id : String
  pub cls : EventClass
  pub source : String
  pub creator : String
  pub ts_local : Time
  pub vclock : Clock
  pub parents : List String
  pub self_parent_id : Option String
  pub other_parent_id : Option String
  pub payload : Dict String Json
  pub sig : Option String
  pub consensus_ts : Option Time
  pub lamport_ts : Option ℕ
  pub round : Option ℕ
  pub round_received : Option ℕ
  pub is_witness : Bool
  pub is_famous_witness : Bool
  pub fame_decided : Bool
  pub fame_decision_round : Option ℕ
  pub fame_decision_kind : DecisionKind
  pub fame_needs_coin : Bool
  pub fame_coin_used : Bool
  pub fame_coin_round : Option ℕ
  pub fame_vote_round : Option ℕ
  pub fame_vote_yes : ℕ
  pub fame_vote_no : ℕ

-- {"node": ..., "ts": ...}; an absent node reads as "".
pub record Hop : Type 0 where
  pub node : String
  pub ts : Option Time

pub record Envelope : Type 0 where
  pub event : Event
  pub path_meta : List Hop

unfoldable pub add_hop : Envelope → String → Time → Envelope
add_hop env node_id ts = record env {
  path_meta = env.path_meta ++ record { node = node_id; ts = some ts } ∷ [];
}

-- text or default
abbrev pub or_default : String → String → String
or_default s d = if s == "" then d else s

-- event.creator or event.source
unfoldable pub creator_of : Event → String
creator_of e = or_default e.creator e.source
