-- ===== src/Node/Emit.antt =====
-- mdrj/node.py `emit_event` and `_persist_envelope`, with `latest_event_by_source` and
-- `list_recent_events` of mdrj/storage.py: the parents, the clock and the row of a new event. Rows of
-- the same time come in either order in SQL, and here in that of the table. `choose` is
-- `random.choice`. The metrics, the queues of the gossip and the broadcasts are left out.
pub mod Parents
pub mod Clocks
use hashgraph.Prelude.{
  ℕ, zero, suc, ◌≡◌, String, Bool, true, false, ◌&&◌, ◌||◌, not, Option, none, some, List, [], ◌∷◌,
  ◌++◌, map, string_eq, nat_eq, nat_ord, if◌then◌else◌, ◌==◌, sort_on, length, contains, keep, leb,
}
use hashgraph.Dict.{Dict}
use hashgraph.VectorClock.{Clock, increment, merge}
use hashgraph.Models.{Event, EventClass, Time, Json, Envelope}
use hashgraph.Models.Create.{Digests, first_of, second_of, create}
use hashgraph.Storage.{StoredEvent, Database}
use hashgraph.Storage.Insert.{read_back, get_event, store_envelope}

abbrev pub backwards {ℓ} : {A : Type ℓ} → List A → List A
backwards [] = []
backwards (x ∷ xs) = backwards xs ++ x ∷ []

-- xs[:n]
abbrev pub take {ℓ} : {A : Type ℓ} → ℕ → List A → List A
take zero xs = []
take (suc n) [] = []
take (suc n) (x ∷ xs) = x ∷ take n xs

-- ORDER BY created_at DESC
unfoldable pub newest_first : List StoredEvent → List StoredEvent
newest_first rows = backwards (sort_on (λ (row : StoredEvent). row.created_at) rows)

unfoldable pub latest_event_by_source : String → List StoredEvent → Option Event
unfolding newest_first read_back
latest_event_by_source source rows = first_of (
    map (λ row. read_back row.event) (newest_first (keep (λ row. row.event.source == source) rows)))

unfoldable pub list_recent_events : ℕ → List StoredEvent → List Event
unfolding newest_first read_back
list_recent_events limit rows = map (λ row. read_back row.event) (take limit (newest_first rows))

-- The ids of the events of other nodes that are no parents yet.
unfoldable pub other_candidates : String → List String → List Event → List String
other_candidates node_id parents [] = []
other_candidates node_id parents (event ∷ events) =
    let more = other_candidates node_id parents events in
    if event.source == node_id || contains parents event.id then more else event.id ∷ more

abbrev pub add_choice : (List String → String) → List String → List String → List String
add_choice choose [] parents = parents
add_choice choose (c ∷ candidates) parents = parents ++ choose (c ∷ candidates) ∷ []

-- The loop over the anchors.
unfoldable pub add_anchors : List String → List String → List String
add_anchors [] parents = parents
add_anchors (anchor ∷ anchors) parents =
    let one_more =
      add_anchors anchors (if contains parents anchor then parents else parents ++ anchor ∷ []) in
    if leb 2 (length parents) then parents else one_more

abbrev pub id_list : Option Event → List String
id_list none = []
id_list (some event) = event.id ∷ []

unfoldable pub choose_parents :
    (List String → String) → String → List String → List StoredEvent → List String
unfolding latest_event_by_source list_recent_events other_candidates add_anchors
choose_parents choose node_id anchors rows =
    let self_parent = id_list (latest_event_by_source node_id rows) in
    let candidates = other_candidates node_id self_parent (list_recent_events 256 rows) in
    take 2 (add_anchors anchors (add_choice choose candidates self_parent))

-- The clocks of the parents that are stored, merged into the node's.
unfoldable pub merge_parents : Clock → List String → List StoredEvent → Clock
merge_parents clock [] rows = clock
merge_parents clock (parent ∷ parents) rows =
    merge_parents
      (elim (get_event parent rows) [ none ↦ clock | some event ↦ merge clock event.vclock ])
      parents rows

pub record Local : Type 0 where
  pub database : Database
  pub clock : Clock

-- What `emit_event` reads beside the state: the node's id, the anchors, the key's signature of the
-- payload, and the times of the event and of its row.
pub record Emitter : Type 0 where
  pub node_id : String
  pub anchors : List String
  pub sig : Option String
  pub ts : Time
  pub now : Time

module _ (digests : Digests) (choose : List String → String) (s : Emitter) where
  -- _persist_envelope
  unfoldable pub persist_envelope : Envelope → Local → Bool × Local
  persist_envelope envelope local =
      let (stored, database) =
        store_envelope digests.payload_json s.now envelope envelope.event.consensus_ts
          local.database in
      (stored, record { database = database; clock = merge local.clock envelope.event.vclock })

  unfoldable pub new_event : EventClass → Dict String Json → Local → Event
  unfolding choose_parents merge_parents
  new_event cls payload local =
      let parents = choose_parents choose s.node_id s.anchors local.database.events in
      create digests (record {
        cls = cls;
        source = s.node_id;
        ts_local = s.ts;
        vclock = increment (merge_parents local.clock parents local.database.events) s.node_id;
        parents = parents;
        payload = payload;
        sig = s.sig;
        creator = some s.node_id;
        self_parent_id = first_of parents;
        other_parent_id = second_of parents;
      })

  unfoldable pub emit_event : EventClass → Dict String Json → Local → Event × Bool × Local
  unfolding new_event persist_envelope
  emit_event cls payload local =
      let event = new_event cls payload local in
      let (stored, kept) =
        persist_envelope
          (record { event = event; path_meta = record { node = s.node_id; ts = some s.ts } ∷ [] })
          local in
      (event, stored, record kept { clock = merge event.vclock event.vclock })
