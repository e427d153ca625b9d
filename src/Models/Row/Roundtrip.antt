-- ===== src/Models/Row/Roundtrip.antt =====
-- An event that is written to the database is read back.
use hashgraph.Prelude.{
  ◌≡◌, ◌≢◌, refl, sym, ap, String, Bool, true, false, Option, none, some, [], string_eq, nat_eq,
  ◌==◌, ok, text_ord, sort_on, Bool-cases, inl, inr,
}
use hashgraph.Dict.{Dict}
use hashgraph.Models.{
  Event, EventClass, class_a, class_b, class_c, Json, DecisionKind, pending, vote, coin_surrogate,
}
use hashgraph.Models.Create.{first_of, second_of, parent_or, creator_or, NewEvent, Digests, create}
use hashgraph.Models.Row.{
  Codec, class_text, class_from_str, kind_text, kind_from_str, int_of, truth, text_or,
  load_json_field, to_record, event_of_row, from_record,
}

abbrev pub sorted_keys {ℓ} : {A : Type ℓ} → Dict String A → Dict String A
sorted_keys d = sort_on (λ e. e.0) d

-- What the code relies on of `json` for an event: the three texts that the encoder wrote with
-- `sort_keys` are not empty and read as the values with the keys of their objects in order.
pub record IsJson (codec : Codec) (canonical : Dict String Json → Dict String Json) (e : Event)
    : Type 0 where
  pub clock_text : codec.clock_json e.vclock ≢ ""
  pub parents_text : codec.parents_json e.parents ≢ ""
  pub payload_text : codec.payload_json e.payload ≢ ""
  pub clock_back : codec.read_clock (codec.clock_json e.vclock) ≡ some (sorted_keys e.vclock)
  pub parents_back : codec.read_parents (codec.parents_json e.parents) ≡ some e.parents
  pub payload_back : codec.read_payload (codec.payload_json e.payload) ≡ some (canonical e.payload)

-- An event whose source, creator and parent links are filled in, as `create` leaves them.
pub record IsComplete (e : Event) : Type 0 where
  pub has_source : (e.source == "") ≡ false
  pub has_creator : (e.creator == "") ≡ false
  pub self_parent : parent_or e.self_parent_id (first_of e.parents) ≡ e.self_parent_id
  pub other_parent : parent_or e.other_parent_id (second_of e.parents) ≡ e.other_parent_id

class-back : (c : EventClass) → class_from_str (text_or (some (class_text c)) "C") ≡ ok c
unfolding class_from_str class_text
class-back class_a = refl
class-back class_b = refl
class-back class_c = refl

pub kind-back : (k : DecisionKind) → kind_from_str (text_or (some (kind_text k)) "pending") ≡ k
unfolding kind_from_str kind_text
kind-back pending = refl
kind-back vote = refl
kind-back coin_surrogate = refl

truth-back : (b : Bool) → truth (some (int_of b)) ≡ b
truth-back true = refl
truth-back false = refl

pub text-back : (s d : String) → (s == "") ≡ false → text_or (some s) d ≡ s
text-back s d h = rw h refl

id-back : (s : String) → text_or (some s) "" ≡ s
id-back s = elim (Bool-cases (s == "")) [
  | inl e ↦ rw e (sym ((string_eq.beq_iff s "").0 e))
  | inr e ↦ rw e refl
]

field-back {ℓ} :
    {A : Type ℓ} (read : String → Option A) (default a : A) (raw : String)
    → raw ≢ ""
    → read raw ≡ some a
    → load_json_field read default (some raw) ≡ ok a
unfolding load_json_field
field-back read default a raw h r = elim (Bool-cases (raw == "")) [
  | inl e ↦ absurd (h ((string_eq.beq_iff raw "").0 e))
  | inr e ↦ rw (e, r) refl
]

module _ (codec : Codec) (canonical : Dict String Json → Dict String Json) where
  columns-back :
      (e : Event)
      → IsComplete e
      → event_of_row codec
          (to_record codec e)
          e.cls
          (sorted_keys e.vclock)
          e.parents
          (canonical e.payload)
        ≡ record e { vclock = sorted_keys e.vclock; payload = canonical e.payload }
  unfolding event_of_row to_record
  columns-back e complete =
      rw
        (
          id-back e.id,
          text-back e.source "unknown" complete.has_source,
          text-back e.creator e.source complete.has_creator,
          complete.self_parent,
          complete.other_parent,
          truth-back e.is_witness,
          truth-back e.is_famous_witness,
          truth-back e.fame_decided,
          truth-back e.fame_needs_coin,
          truth-back e.fame_coin_used,
          kind-back e.fame_decision_kind,
        )
        refl

  -- An event that is complete, whatever consensus has worked out for it, is read back from its row as
  -- it was, up to the order of the keys in its clock and payload.
  pub from_record-to_record :
      (e : Event)
      → IsJson codec canonical e
      → IsComplete e
      → from_record codec (to_record codec e)
        ≡ ok (record e { vclock = sorted_keys e.vclock; payload = canonical e.payload })
  unfolding from_record to_record
  from_record-to_record e json complete =
      rw
        (
          field-back codec.read_parents [] e.parents (codec.parents_json e.parents)
              json.parents_text json.parents_back,
          class-back e.cls,
          field-back codec.read_clock [] (sorted_keys e.vclock) (codec.clock_json e.vclock)
              json.clock_text json.clock_back,
          field-back codec.read_payload [] (canonical e.payload) (codec.payload_json e.payload)
              json.payload_text json.payload_back,
        )
        (ap ok (columns-back e complete))

  create-IsComplete : (d : Digests) (n : NewEvent) → n.source ≢ "" → IsComplete (create d n)
  unfolding create
  create-IsComplete d n h = record {
    has_source = named;
    has_creator = creator_named n.creator;
    self_parent = filled n.self_parent_id (first_of n.parents);
    other_parent = filled n.other_parent_id (second_of n.parents);
  }
    where
      named : (n.source == "") ≡ false
      named = elim (Bool-cases (n.source == "")) [
        | inl e ↦ absurd (h ((string_eq.beq_iff n.source "").0 e))
        | inr e ↦ e
      ]

      creator_named : (c : Option String) → (creator_or c n.source == "") ≡ false
      creator_named none = named
      creator_named (some c) = elim (Bool-cases (c == "")) [ inl e ↦ rw e named | inr e ↦ rw e e ]

      filled : (p d : Option String) → parent_or (parent_or p d) d ≡ parent_or p d
      filled none none = refl
      filled none (some p) = refl
      filled (some p) d = refl

  -- An event that `create` makes for a source with a name is read back from its row as it was, up to
  -- the order of the keys in its clock and payload.
  pub from_record-create :
      (d : Digests) (n : NewEvent)
      → IsJson codec canonical (create d n)
      → n.source ≢ ""
      → from_record codec (to_record codec (create d n))
        ≡ ok (record (create d n) { vclock = sorted_keys n.vclock; payload = canonical n.payload })
  unfolding create
  from_record-create d n json h = from_record-to_record (create d n) json (create-IsComplete d n h)
