-- ===== src/Node/Recompute/Written.antt =====
-- What `_recompute_consensus` leaves in the rows of the stored events.
use hashgraph.Prelude.{
  inl, inr, ℕ, ◌≡◌, refl, sym, ◌∙◌, ap, String, Bool, true, false, Option, none, some, List, [],
  ◌∷◌, map, arith, string_eq, contains, nodup, nat_ord, text_ord, option_ord, pair_ord, sort_on,
  is_some, is_empty, Result, ok, err, contains-sort_on,
}
use hashgraph.Dict.{get}
use hashgraph.Models.{Event, Time}
use hashgraph.Consensus.Membership.{MembershipEntry}
use hashgraph.Consensus.Ancestry.{Events}
use hashgraph.Consensus.Rounds.Final.{ids}
use hashgraph.Consensus.Recompute.{ConsensusState, index_events}
use hashgraph.Storage.{StoredEvent, Database, id_of}
use hashgraph.Storage.Rows.{row_ids}
use hashgraph.Storage.Insert.{all_events, read_back, replace_consensus_state, find_event}
use hashgraph.Storage.Insert.States.{state_for, applied, find-replace_consensus_state}
use hashgraph.Storage.Toposort.{CycleError, cycle_detected, toposort}
use hashgraph.Storage.Toposort.Total.{IsSorted, is_ranked, toposort-IsSorted, toposort_total}
use hashgraph.Node.Recompute.{pick_events, states_along, recompute_consensus}
use hashgraph.Consensus.Recompute.Index.{has-index_events, found_event}
use hashgraph.Consensus.Recompute.Output.{contains-recompute, nodup-recompute}

-- Every event of the dict stands under its id.
abbrev IsKeyed : Events → Type 0
IsKeyed by_id = (k : String) (e : Event) → get k by_id ≡ some e → e.id ≡ k

index_events-IsKeyed : (es : List Event) → IsKeyed (index_events [] es)
unfolding get
index_events-IsKeyed es k e g = elim (found_event k e [] es g) [
  | inl (m, same) ↦ same
  | inr at_k ↦ cc
]

ids-pick_events :
    (by_id : Events) (order : List String)
    → IsKeyed by_id
    → ((k : String) → contains order k ≡ true → is_some (get k by_id) ≡ true)
    → ids (pick_events by_id order) ≡ order
unfolding pick_events contains
ids-pick_events by_id [] h known = refl
ids-pick_events by_id (k ∷ order) h known =
    let rest = ids-pick_events by_id order h (λ j m. known j (ground (arith, m))) in
    go (get k by_id) (h k) (known k (ground (arith, string_eq.beq_iff k k))) rest
  where
    go :
        (found : Option Event)
        → ((e : Event) → found ≡ some e → e.id ≡ k)
        → is_some found ≡ true
        → ids (pick_events by_id order) ≡ order
        → ids (elim found [
          | none ↦ pick_events by_id order
          | some event ↦ event ∷ pick_events by_id order
        ])
          ≡ k ∷ order
    go none g p r = cc
    go (some e) g p r = rw (g e refl, r) refl

map-read_back :
    (rows : List StoredEvent) → ids (map (λ row. read_back row.event) rows) ≡ row_ids rows
unfolding read_back
map-read_back [] = refl
map-read_back (row ∷ rows) = ap (◌∷◌ row.event.id) (map-read_back rows)

contains-all_events :
    (rows : List StoredEvent) (k : String)
    → contains (ids (all_events rows)) k ≡ contains (row_ids rows) k
unfolding all_events
contains-all_events rows k =
    ap (λ l. contains l k) (map-read_back (sort_on (λ (row : StoredEvent). row.created_at) rows))
    ∙ contains-sort_on (λ (row : StoredEvent). row.created_at) id_of k rows

contains-is_empty :
    (es : List Event) (k : String) → is_empty es ≡ true → contains (ids es) k ≡ false
unfolding contains
contains-is_empty [] k h = refl
contains-is_empty (e ∷ es) k h = cc

no_rows : (rows : List StoredEvent) → is_empty (all_events rows) ≡ true → rows ≡ []
unfolding contains
no_rows [] h = refl
no_rows (row ∷ rows) h =
    let missing = contains-is_empty (all_events (row ∷ rows)) row.event.id h in
    ground (
      arith,
      contains-all_events (row ∷ rows) row.event.id,
      missing,
      string_eq.beq_iff row.event.id row.event.id,
    )

applied-none : (state : Option ConsensusState) → applied state none ≡ none
unfolding applied
applied-none none = refl
applied-none (some s) = refl

contains-state_for :
    (k : String) (states : List ConsensusState)
    → is_some (state_for k states) ≡ contains (map (λ s. s.event_id) states) k
unfolding state_for contains
contains-state_for k [] = refl
contains-state_for k (s ∷ states) = ground (arith, contains-state_for k states)

module _ (sha256 : String → List ℕ) (midpoint : Time → Time → Time) (node_id : String)
    (members : List MembershipEntry) where
  abbrev states : Database → List String → List ConsensusState
  states = states_along sha256 midpoint node_id members

  -- The rows after a pass along the order.
  pub record IsWritten (db : Database) (order : List String) (after : Database) : Type 0 where
    pub along : IsSorted (row_ids db.events) db.edges order
    pub each_state :
        (k : String) → is_some (state_for k (states db order)) ≡ contains (row_ids db.events) k
    pub each_row :
        (k : String)
        → find_event k after.events
          ≡ applied (state_for k (states db order)) (find_event k db.events)

  picked :
      (db : Database) (order : List String)
      → IsSorted (row_ids db.events) db.edges order
      → ids (pick_events (index_events [] (all_events db.events)) order) ≡ order
  unfolding get
  picked db order s =
      ids-pick_events (index_events [] (all_events db.events)) order
        (index_events-IsKeyed (all_events db.events))
        (λ k m.
          has-index_events k [] (all_events db.events)
          ∙ ground (arith, contains-all_events db.events k, s.same_events k, m))

  written :
      (db : Database) (order : List String)
      → IsSorted (row_ids db.events) db.edges order
      → IsWritten db order
          (record db { events = replace_consensus_state (states db order) db.events })
  unfolding states_along
  written db order s =
      let names = picked db order s in
      let once : nodup (ids (pick_events (index_events [] (all_events db.events)) order)) ≡ true =
        ap nodup names ∙ s.each_once in
      record {
        along = s;
        each_state = λ k.
            contains-state_for k (states db order)
            ∙ contains-recompute sha256 midpoint node_id _ _ _ k once
            ∙ ap (λ l. contains l k) names
            ∙ s.same_events k;
        each_row = λ k.
            find-replace_consensus_state (states db order) db.events k
              (nodup-recompute sha256 midpoint node_id _ _ _ once);
      }

  -- The pass over a table without events changes nothing.
  empty-IsWritten :
      (db : Database) (order : List String)
      → IsSorted (row_ids db.events) db.edges order
      → is_empty (all_events db.events) ≡ true
      → IsWritten db order db
  unfolding find_event
  empty-IsWritten db order s h =
      let gone : (k : String) → find_event k db.events ≡ none =
        λ k. ap (find_event k) (no_rows db.events h) in
      record {
        along = s;
        each_state = (written db order s).each_state;
        each_row = λ k.
            gone k
            ∙ sym (
                ap (applied (state_for k (states db order))) (gone k)
                ∙ applied-none (state_for k (states db order)));
      }

  -- If the ids of the stored events are distinct and some rank grows along every edge between two
  -- of them, then the recomputation succeeds: along an order of the events that the edges
  -- allow it works out one state for each stored event and none for others, and afterwards the row
  -- of an event is its former row with the state put in.
  pub recompute_consensus_writes :
      (rank : String → ℕ) (db : Database)
      → nodup (row_ids db.events) ≡ true
      → is_ranked rank (row_ids db.events) db.edges ≡ true
      → (order : List String) × ((after : Database) × ((recompute_consensus sha256 midpoint node_id
                members db
              ≡ ok after)
            × IsWritten db order after))
  unfolding recompute_consensus
  recompute_consensus_writes rank db once ranked =
      go (toposort (row_ids db.events) db.edges) refl (is_empty (all_events db.events)) refl
    where
      go :
          (sorted : Result CycleError (List String))
          → toposort (row_ids db.events) db.edges ≡ sorted
          → (none_stored : Bool) → is_empty (all_events db.events) ≡ none_stored
          → (order : List String) × ((after : Database) × ((recompute_consensus sha256 midpoint
                    node_id members db
                  ≡ ok after)
                × IsWritten db order after))
      go (err cycle_detected) s b q =
          absurd (toposort_total rank (row_ids db.events) db.edges once ranked s)
      go (ok order) s true q = (
        order,
        (
          db,
          (
            rw q refl,
            empty-IsWritten db order (toposort-IsSorted (row_ids db.events) db.edges order once s)
                q,
          ),
        ),
      )
      go (ok order) s false q = (
        order,
        (
          _,
          (
            rw (q, s) refl,
            written db order (toposort-IsSorted (row_ids db.events) db.edges order once s),
          ),
        ),
      )
