-- ===== src/Tests/Records.antt =====
-- Runs of the theorems on events as rows and as messages.
use hashgraph.Prelude.{◌≡◌, refl, true, some, [], ◌∷◌, ok, sort_on, string_eq}
use hashgraph.Models.{Event, Envelope}
use hashgraph.Models.Row.{Codec, to_record, from_record}
use hashgraph.Models.Row.Roundtrip.{sorted_keys, from_record-to_record}
use hashgraph.Models.Wire.{to_dict, from_dict}
use hashgraph.Models.Wire.Roundtrip.{from_dict-to_dict}
use hashgraph.Tests.Samples.{second_event, hops}

abbrev event : Event
event = record second_event {
  vclock = ("b", 1) ∷ ("a", 1) ∷ [];
  self_parent_id = some "a0";
  round = some 2;
  is_witness = true;
}

-- A codec for the clock, the parents and the payload of the event.
abbrev codec : Codec
codec = record {
  clock_json = λ c. "{a:1,b:1}";
  parents_json = λ p. "[a0]";
  payload_json = λ p. "{}";
  read_clock = λ s. some (("a", 1) ∷ ("b", 1) ∷ []);
  read_parents = λ s. some ("a0" ∷ []);
  read_payload = λ s. some [];
}

from_record-to_record_example :
    from_record codec (to_record codec event)
    ≡ ok (record event { vclock = sorted_keys event.vclock; payload = [] })
unfolding sort_on
from_record-to_record_example =
    from_record-to_record codec (λ p. []) event
      (record {
        clock_text = λ q. cc;
        parents_text = λ q. cc;
        payload_text = λ q. cc;
        clock_back = refl;
        parents_back = refl;
        payload_back = refl;
      })
      (record { has_source = refl; has_creator = refl; self_parent = refl; other_parent = refl })

abbrev envelope : Envelope
envelope = record { event = event; path_meta = hops }

from_dict-to_dict_example : from_dict (to_dict envelope) ≡ ok envelope
from_dict-to_dict_example =
    from_dict-to_dict envelope
      (record { has_creator = refl; self_parent = refl; other_parent = refl })
