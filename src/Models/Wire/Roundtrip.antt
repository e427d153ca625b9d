-- ===== src/Models/Wire/Roundtrip.antt =====
-- An envelope that one node sends is the envelope that the other node reads.
use hashgraph.Prelude.{◌≡◌, refl, false, string_eq, ◌==◌, ok}
use hashgraph.Models.{Event, EventClass, class_a, class_b, class_c, Envelope}
use hashgraph.Models.Create.{first_of, second_of}
use hashgraph.Models.Row.{class_text, class_from_str}
use hashgraph.Models.Row.Roundtrip.{kind-back, text-back}
use hashgraph.Models.Wire.{
  event_to_dict, to_dict, class_of, link_or, event_of_dict, event_from_dict, from_dict,
}

-- An event whose creator and parent links are filled in, and no link is the empty text.
pub record IsSendable (e : Event) : Type 0 where
  pub has_creator : (e.creator == "") ≡ false
  pub self_parent : link_or e.self_parent_id (first_of e.parents) ≡ e.self_parent_id
  pub other_parent : link_or e.other_parent_id (second_of e.parents) ≡ e.other_parent_id

class-back : (c : EventClass) → class_of (class_from_str (class_text c)) ≡ ok c
unfolding class_from_str class_text
class-back class_a = refl
class-back class_b = refl
class-back class_c = refl

event-back : (e : Event) → IsSendable e → event_from_dict (event_to_dict e) ≡ ok e
unfolding event_from_dict event_to_dict event_of_dict
event-back e h =
    rw
      (
        class-back e.cls,
        text-back e.creator e.source h.has_creator,
        h.self_parent,
        h.other_parent,
        kind-back e.fame_decision_kind,
      )
      refl

-- An envelope whose event has its creator and parent links is read back from its dict as it was, with
-- its hops.
pub from_dict-to_dict : (env : Envelope) → IsSendable env.event → from_dict (to_dict env) ≡ ok env
unfolding from_dict to_dict
from_dict-to_dict env h = rw (event-back env.event h) refl
