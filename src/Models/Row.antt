-- ===== src/Models/Row.antt =====
-- mdrj/models.py `Event.to_record` and `Event.from_record`: an event as a row of the database. A
-- column that is missing reads as NULL, and NULL is `none`.
pub mod Roundtrip
use hashgraph.Prelude.{
  ℕ, ◌≡◌, String, Bool, true, false, not, Option, none, some, List, [], ◌∷◌, string_eq, nat_eq,
  if◌then◌else◌, ◌==◌, Result, ok, err, ◌>>=◌,
}
use hashgraph.Dict.{Dict}
use hashgraph.VectorClock.{Clock}
use hashgraph.Models.{
  Event, EventClass, class_a, class_b, class_c, Time, Json, DecisionKind, pending, vote,
  coin_surrogate, or_default,
}
use hashgraph.Models.Create.{first_of, second_of, parent_or, creator_or}

pub record EventRow : Type 0 where
  pub id : Option String
  pub cls : Option String
  pub source : Option String
  pub creator : Option String
  pub ts_local : Option Time
  pub vclock : Option String
  pub parents : Option String
  pub self_parent_id : Option String
  pub other_parent_id : Option String
  pub payload : Option String
  pub sig : Option String
  pub consensus_ts : Option Time
  pub lamport_ts : Option ℕ
  pub round : Option ℕ
  pub round_received : Option ℕ
  pub is_witness : Option ℕ
  pub is_famous_witness : Option ℕ
  pub fame_decided : Option ℕ
  pub fame_decision_round : Option ℕ
  pub fame_decision_kind : Option String
  pub fame_needs_coin : Option ℕ
  pub fame_coin_used : Option ℕ
  pub fame_coin_round : Option ℕ
  pub fame_vote_round : Option ℕ
  pub fame_vote_yes : Option ℕ
  pub fame_vote_no : Option ℕ

-- The standard library's JSON encoder and decoder on the three columns that hold JSON. A text that
-- the decoder refuses reads as `none`.
pub record Codec : Type 0 where
  pub clock_json : Clock → String
  pub parents_json : List String → String
  pub payload_json : Dict String Json → String
  pub read_clock : String → Option Clock
  pub read_parents : String → Option (List String)
  pub read_payload : String → Option (Dict String Json)

pub data RowError : Type 0 where
  bad_json bad_class : RowError

unfoldable pub class_text : EventClass → String
class_text class_a = "A"
class_text class_b = "B"
class_text class_c = "C"

unfoldable pub class_from_str : String → Result RowError EventClass
class_from_str s =
    if s == "A"
    then ok class_a
    else if s == "B"
    then ok class_b
    else if s == "C"
    then ok class_c
    else err bad_class

unfoldable pub kind_text : DecisionKind → String
kind_text pending = "pending"
kind_text vote = "vote"
kind_text coin_surrogate = "coin_surrogate"

-- The schema's update leaves no other kind in the column.
unfoldable pub kind_from_str : String → DecisionKind
kind_from_str s =
    if s == "vote" then vote else if s == "coin_surrogate" then coin_surrogate else pending

-- int(bool(b))
abbrev pub int_of : Bool → ℕ
int_of true = 1
int_of false = 0

-- bool(column)
abbrev pub truth : Option ℕ → Bool
truth none = false
truth (some n) = not (n == 0)

-- column or default
abbrev pub text_or : Option String → String → String
text_or none default = default
text_or (some s) default = or_default s default

abbrev pub number_or_zero : Option ℕ → ℕ
number_or_zero none = 0
number_or_zero (some n) = n

abbrev pub decoded {ℓ} : {A : Type ℓ} → Option A → Result RowError A
decoded none = err bad_json
decoded (some a) = ok a

-- load_json_field
unfoldable pub load_json_field {ℓ} :
    {A : Type ℓ} → (String → Option A) → A → Option String → Result RowError A
load_json_field read default none = ok default
load_json_field read default (some raw) = if raw == "" then ok default else decoded (read raw)

module _ (codec : Codec) where
  unfoldable pub to_record : Event → EventRow
  unfolding class_text kind_text
  to_record e = record {
    id = some e.id;
    cls = some (class_text e.cls);
    source = some e.source;
    creator = some e.creator;
    ts_local = some e.ts_local;
    vclock = some (codec.clock_json e.vclock);
    parents = some (codec.parents_json e.parents);
    self_parent_id = e.self_parent_id;
    other_parent_id = e.other_parent_id;
    payload = some (codec.payload_json e.payload);
    sig = e.sig;
    consensus_ts = e.consensus_ts;
    lamport_ts = e.lamport_ts;
    round = e.round;
    round_received = e.round_received;
    is_witness = some (int_of e.is_witness);
    is_famous_witness = some (int_of e.is_famous_witness);
    fame_decided = some (int_of e.fame_decided);
    fame_decision_round = e.fame_decision_round;
    fame_decision_kind = some (kind_text e.fame_decision_kind);
    fame_needs_coin = some (int_of e.fame_needs_coin);
    fame_coin_used = some (int_of e.fame_coin_used);
    fame_coin_round = e.fame_coin_round;
    fame_vote_round = e.fame_vote_round;
    fame_vote_yes = some e.fame_vote_yes;
    fame_vote_no = some e.fame_vote_no;
  }

  -- The event of a row whose class and JSON columns are read.
  unfoldable pub event_of_row :
      EventRow → EventClass → Clock → List String → Dict String Json → Event
  unfolding kind_from_str
  event_of_row r cls vclock parents payload = record {
    id = text_or r.id "";
    cls = cls;
    source = text_or r.source "unknown";
    creator = text_or r.creator (text_or r.source "unknown");
    ts_local = number_or_zero r.ts_local;
    vclock = vclock;
    parents = parents;
    self_parent_id = parent_or r.self_parent_id (first_of parents);
    other_parent_id = parent_or r.other_parent_id (second_of parents);
    payload = payload;
    sig = r.sig;
    consensus_ts = r.consensus_ts;
    lamport_ts = r.lamport_ts;
    round = r.round;
    round_received = r.round_received;
    is_witness = truth r.is_witness;
    is_famous_witness = truth r.is_famous_witness;
    fame_decided = truth r.fame_decided;
    fame_decision_round = r.fame_decision_round;
    fame_decision_kind = kind_from_str (text_or r.fame_decision_kind "pending");
    fame_needs_coin = truth r.fame_needs_coin;
    fame_coin_used = truth r.fame_coin_used;
    fame_coin_round = r.fame_coin_round;
    fame_vote_round = r.fame_vote_round;
    fame_vote_yes = number_or_zero r.fame_vote_yes;
    fame_vote_no = number_or_zero r.fame_vote_no;
  }

  unfoldable pub from_record : EventRow → Result RowError Event
  unfolding load_json_field class_from_str event_of_row
  from_record r = load_json_field codec.read_parents [] r.parents >>= λ parents.
      class_from_str (text_or r.cls "C") >>= λ cls.
      load_json_field codec.read_clock [] r.vclock >>= λ vclock.
      load_json_field codec.read_payload [] r.payload >>= λ payload.
      ok (event_of_row r cls vclock parents payload)
