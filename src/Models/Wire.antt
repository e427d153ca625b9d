-- ===== src/Models/Wire.antt =====
-- mdrj/models.py `Envelope.to_dict` and `Envelope.from_dict`: an envelope as the dict that goes over
-- the network. A key that is missing or holds `None` is `none`; a kind of decision that the code does
-- not write reads as pending.
pub mod Roundtrip
use hashgraph.Prelude.{
  ℕ, ◌≡◌, refl, sym, ap, String, Bool, true, false, not, Option, none, some, List, [], ◌∷◌,
  string_eq, nat_eq, if◌then◌else◌, ◌==◌, Result, ok, err, ◌>>=◌, Bool-cases, inl, inr,
}
use hashgraph.Dict.{Dict}
use hashgraph.VectorClock.{Clock}
use hashgraph.Models.{
  Event, EventClass, class_a, class_b, class_c, Time, Json, DecisionKind, pending, vote,
  coin_surrogate, or_default, Hop, Envelope,
}
use hashgraph.Models.Create.{first_of, second_of}
use hashgraph.Models.Row.{
  RowError, class_text, class_from_str, kind_text, kind_from_str, text_or, number_or_zero,
}

pub data WireError : Type 0 where
  missing_key bad_class : WireError

pub record WireEvent : Type 0 where
  pub id : Option String
  pub cls : Option String
  pub source : Option String
  pub creator : Option String
  pub ts_local : Option Time
  pub vclock : Option Clock
  pub parents : Option (List String)
  pub self_parent_id : Option String
  pub other_parent_id : Option String
  pub payload : Option (Dict String Json)
  pub sig : Option String
  pub consensus_ts : Option Time
  pub lamport_ts : Option ℕ
  pub round : Option ℕ
  pub round_received : Option ℕ
  pub is_witness : Option Bool
  pub is_famous_witness : Option Bool
  pub fame_decided : Option Bool
  pub fame_decision_round : Option ℕ
  pub fame_decision_kind : Option String
  pub fame_needs_coin : Option Bool
  pub fame_coin_used : Option Bool
  pub fame_coin_round : Option ℕ
  pub fame_vote_round : Option ℕ
  pub fame_vote_yes : Option ℕ
  pub fame_vote_no : Option ℕ

pub record WireEnvelope : Type 0 where
  pub event : Option WireEvent
  pub path_meta : Option (List Hop)

unfoldable pub event_to_dict : Event → WireEvent
unfolding class_text kind_text
event_to_dict e = record {
  id = some e.id;
  cls = some (class_text e.cls);
  source = some e.source;
  creator = some e.creator;
  ts_local = some e.ts_local;
  vclock = some e.vclock;
  parents = some e.parents;
  self_parent_id = e.self_parent_id;
  other_parent_id = e.other_parent_id;
  payload = some e.payload;
  sig = e.sig;
  consensus_ts = e.consensus_ts;
  lamport_ts = e.lamport_ts;
  round = e.round;
  round_received = e.round_received;
  is_witness = some e.is_witness;
  is_famous_witness = some e.is_famous_witness;
  fame_decided = some e.fame_decided;
  fame_decision_round = e.fame_decision_round;
  fame_decision_kind = some (kind_text e.fame_decision_kind);
  fame_needs_coin = some e.fame_needs_coin;
  fame_coin_used = some e.fame_coin_used;
  fame_coin_round = e.fame_coin_round;
  fame_vote_round = e.fame_vote_round;
  fame_vote_yes = some e.fame_vote_yes;
  fame_vote_no = some e.fame_vote_no;
}

unfoldable pub to_dict : Envelope → WireEnvelope
unfolding event_to_dict
to_dict env = record { event = some (event_to_dict env.event); path_meta = some env.path_meta }

-- data[key]
abbrev pub required {ℓ} : {A : Type ℓ} → Option A → Result WireError A
required none = err missing_key
required (some a) = ok a

abbrev pub class_of : Result RowError EventClass → Result WireError EventClass
class_of (ok c) = ok c
class_of (err e) = err bad_class

-- data.get(key) or default
abbrev pub link_or : Option String → Option String → Option String
link_or none default = default
link_or (some s) default = if s == "" then default else some s

abbrev pub flag : Option Bool → Bool
flag none = false
flag (some b) = b

abbrev pub hops_or_empty : Option (List Hop) → List Hop
hops_or_empty none = []
hops_or_empty (some hops) = hops

-- The event of a dict whose required keys are read.
unfoldable pub event_of_dict :
    WireEvent → String → EventClass → String → Time → Clock → List String → Dict String Json → Event
unfolding kind_from_str
event_of_dict w id cls source ts_local vclock parents payload = record {
  id = id;
  cls = cls;
  source = source;
  creator = text_or w.creator source;
  ts_local = ts_local;
  vclock = vclock;
  parents = parents;
  self_parent_id = link_or w.self_parent_id (first_of parents);
  other_parent_id = link_or w.other_parent_id (second_of parents);
  payload = payload;
  sig = w.sig;
  consensus_ts = w.consensus_ts;
  lamport_ts = w.lamport_ts;
  round = w.round;
  round_received = w.round_received;
  is_witness = flag w.is_witness;
  is_famous_witness = flag w.is_famous_witness;
  fame_decided = flag w.fame_decided;
  fame_decision_round = w.fame_decision_round;
  fame_decision_kind = kind_from_str (text_or w.fame_decision_kind "pending");
  fame_needs_coin = flag w.fame_needs_coin;
  fame_coin_used = flag w.fame_coin_used;
  fame_coin_round = w.fame_coin_round;
  fame_vote_round = w.fame_vote_round;
  fame_vote_yes = number_or_zero w.fame_vote_yes;
  fame_vote_no = number_or_zero w.fame_vote_no;
}

unfoldable pub event_from_dict : WireEvent → Result WireError Event
unfolding class_from_str event_of_dict
event_from_dict w = required w.id >>= λ id. required w.cls >>= λ cls_text.
    class_of (class_from_str cls_text) >>= λ cls. required w.source >>= λ source.
    required w.ts_local >>= λ ts_local. required w.vclock >>= λ vclock.
    required w.parents >>= λ parents. required w.payload >>= λ payload.
    ok (event_of_dict w id cls source ts_local vclock parents payload)

unfoldable pub from_dict : WireEnvelope → Result WireError Envelope
unfolding event_from_dict
from_dict envelope = required envelope.event >>= λ w. event_from_dict w >>= λ event.
    ok (record { event = event; path_meta = hops_or_empty envelope.path_meta })
