-- ===== src/Storage/Insert/States.antt =====
-- What the rows hold after the consensus states are written.
use hashgraph.Prelude.{
  ◌≡◌, refl, ◌∙◌, String, true, false, Option, none, some, List, [], ◌∷◌, map, string_eq, arith,
  if◌then◌else◌, ◌==◌, contains, nodup, Bool-cases, inl, inr,
}
use hashgraph.Models.{Event}
use hashgraph.Consensus.Recompute.{ConsensusState}
use hashgraph.Storage.{StoredEvent, id_of}
use hashgraph.Storage.Insert.{update_event, with_state, replace_consensus_state, find_event}

-- The state of an event among the states.
unfoldable pub state_for : String → List ConsensusState → Option ConsensusState
state_for k [] = none
state_for k (s ∷ states) = let more = state_for k states in if s.event_id == k then some s else more

-- An event with its state, where it has one.
unfoldable pub applied : Option ConsensusState → Option Event → Option Event
unfolding with_state
applied none stored = stored
applied (some state) none = none
applied (some state) (some event) = some (with_state state event)

abbrev pub mapped : (Event → Event) → Option Event → Option Event
mapped f none = none
mapped f (some e) = some (f e)

this_row :
    (i i' k j : String) (f : Event → Event) (e : Event) (rest rest' : Option Event)
    → i' ≡ i
    → (i == k) ≡ true
    → rest' ≡ (if k == j then mapped f rest else rest)
    → (if i' == j then some (f e) else rest') ≡ (
        if k == j
        then mapped f (if i == j then some e else rest)
        else if i == j
        then some e
        else rest)
this_row i i' k j f e rest rest' p q h = ground (
  arith,
  string_eq.beq_iff i j,
  string_eq.beq_iff i' j,
  string_eq.beq_iff k j,
  string_eq.beq_iff i k,
)

other_row :
    (i k j : String) (f : Event → Event) (e : Event) (rest rest' : Option Event)
    → (i == k) ≡ false
    → rest' ≡ (if k == j then mapped f rest else rest)
    → (if i == j then some e else rest') ≡ (
        if k == j
        then mapped f (if i == j then some e else rest)
        else if i == j
        then some e
        else rest)
other_row i k j f e rest rest' q h =
    ground (arith, string_eq.beq_iff i j, string_eq.beq_iff k j, string_eq.beq_iff i k)

find-update_event :
    (k j : String) (f : Event → Event) (rows : List StoredEvent)
    → ((e : Event) → (f e).id ≡ e.id)
    → find_event j (update_event k f rows)
      ≡ (if k == j then mapped f (find_event j rows) else find_event j rows)
unfolding find_event update_event
find-update_event k j f [] h = ground arith
find-update_event k j f (row ∷ rows) h = elim (Bool-cases (id_of row == k)) [
  | inl q ↦
      rw q (
        this_row (id_of row) _ k j f row.event _ _ (h row.event) q (find-update_event k j f rows h))
  | inr q ↦ rw q (other_row (id_of row) k j f row.event _ _ q (find-update_event k j f rows h))
]

applied-mapped :
    (s : ConsensusState) (e : Option Event) → mapped (with_state s) e ≡ applied (some s) e
unfolding applied
applied-mapped s none = refl
applied-mapped s (some e) = refl

state_for-none :
    (k : String) (states : List ConsensusState)
    → contains (map (λ s. s.event_id) states) k ≡ false
    → state_for k states ≡ none
unfolding state_for contains
state_for-none k [] h = refl
state_for-none k (s ∷ states) h = ground (arith, state_for-none k states)

-- Writing the states, each event once, gives every row the state of its event, and leaves the rows
-- whose event has none.
pub find-replace_consensus_state :
    (states : List ConsensusState) (rows : List StoredEvent) (k : String)
    → nodup (map (λ s. s.event_id) states) ≡ true
    → find_event k (replace_consensus_state states rows)
      ≡ applied (state_for k states) (find_event k rows)
unfolding replace_consensus_state state_for applied nodup with_state
find-replace_consensus_state [] rows k h = refl
find-replace_consensus_state (s ∷ states) rows k h =
    find-replace_consensus_state states (update_event s.event_id (with_state s) rows) k
      (ground arith)
    ∙ elim (Bool-cases (s.event_id == k)) [
      | inl q ↦
          rw
            (
              q,
              state_for-none k states (ground (arith, string_eq.beq_iff s.event_id k)),
              find-update_event s.event_id k (with_state s) rows (λ e. refl),
              q,
            )
            (applied-mapped s (find_event k rows))
      | inr q ↦ rw (q, find-update_event s.event_id k (with_state s) rows (λ e. refl), q) refl
    ]
