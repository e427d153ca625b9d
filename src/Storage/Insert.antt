-- ===== src/Storage/Insert.antt =====
-- mdrj/storage.py: what writes and reads events: `store_envelope` with `_merge_path_meta`,
-- `replace_consensus_state`, `get_event`, `get_envelope`, `all_events` and `clear_events`. A consensus state of an event always names its creator,
-- and the column `creator` is never NULL, so `COALESCE(creator, ?)` leaves it.
pub mod Hops
pub mod States
use hashgraph.Prelude.{
  ℕ, zero, suc, ◌≡◌, ◌↔◌, String, Bool, true, false, ◌&&◌, not, Option, none, some, List, [], ◌∷◌,
  ◌++◌, map, string_eq, nat_eq, nat_ord, pair_eq, option_eq, Eq, if◌then◌else◌, ◌==◌, contains,
  keep, sort_on, arith, is_some, ap₂, subst, beq_self,
}
use hashgraph.Dict.{Dict, get, get_or, put}
use hashgraph.Models.{Event, Time, Hop, Envelope, pending, Json, or_default}
use hashgraph.Models.Create.{first_of, second_of, parent_or}
use hashgraph.Consensus.Recompute.{ConsensusState}
use hashgraph.Storage.{StoredEvent, Database, Skeleton, id_of}

-- The key of a hop: its node and its time.
hop_of : String → Option Time → Hop
hop_of node ts = record { node = node; ts = ts }

pub hop_beq_iff : (x y : Hop) → ((x.node == y.node && x.ts == y.ts) ≡ true) ↔ (x ≡ y)
unfolding hop_of
hop_beq_iff x y = (
  λ h.
      ap₂ hop_of ((string_eq.beq_iff x.node y.node).0 (ground arith))
        ((option_eq.beq_iff x.ts y.ts).0 (ground arith)),
  λ q.
      subst (λ z. (x.node == z.node && x.ts == z.ts) ≡ true) q
        (ground (arith, beq_self x.node, beq_self x.ts)),
)

instance abbrev pub hop_eq : Eq Hop
hop_eq = record { beq = λ x y. x.node == y.node && x.ts == y.ts; beq_iff = hop_beq_iff }

-- One of the two loops: `seen` holds the keys of `merged`.
unfoldable pub merge_hops : List Hop → List Hop → List Hop
merge_hops merged [] = merged
merge_hops merged (hop ∷ path) =
    merge_hops (if contains merged hop then merged else merged ++ hop ∷ []) path

unfoldable pub merge_path_meta : String → List Hop → Database → Database
unfolding merge_hops
merge_path_meta event_id new_path db = record db {
  envelopes =
      put event_id (merge_hops (merge_hops [] (get_or event_id [] db.envelopes)) new_path)
        db.envelopes;
}

-- INSERT OR IGNORE INTO edges
unfoldable pub add_parents : List String → String → List (String × String) → List (String × String)
add_parents [] child_id edges = edges
add_parents (parent ∷ parents) child_id edges =
    add_parents parents child_id
      (if contains edges (parent, child_id) then edges else edges ++ (parent, child_id) ∷ [])

-- COALESCE(a, b)
abbrev pub coalesce {ℓ} : {A : Type ℓ} → Option A → Option A → Option A
coalesce none b = b
coalesce (some a) b = some a

-- UPDATE events SET ... WHERE id = ?
unfoldable pub update_event : String → (Event → Event) → List StoredEvent → List StoredEvent
update_event event_id f [] = []
update_event event_id f (row ∷ rows) =
    (if id_of row == event_id then record row { event = f row.event } else row)
    ∷ update_event event_id f rows

unfoldable pub exists_event : String → List StoredEvent → Bool
exists_event event_id rows = contains (map id_of rows) event_id

-- What the second arrival of an event adds to its row.
unfoldable pub timed : Option Time → Event → Event → Event
timed consensus_ts event stored = record stored {
  consensus_ts = coalesce stored.consensus_ts consensus_ts;
  self_parent_id = coalesce stored.self_parent_id event.self_parent_id;
  other_parent_id = coalesce stored.other_parent_id event.other_parent_id;
}

-- The columns of a new row: those on fame are not among the inserted ones, and have the defaults.
unfoldable pub inserted : Option Time → Event → Event
inserted consensus_ts event = record event {
  consensus_ts = consensus_ts;
  is_famous_witness = false;
  fame_decided = false;
  fame_decision_round = none;
  fame_decision_kind = pending;
  fame_needs_coin = false;
  fame_coin_used = false;
  fame_coin_round = none;
  fame_vote_round = none;
  fame_vote_yes = 0;
  fame_vote_no = 0;
}

-- What a row is read as.
unfoldable pub read_back : Event → Event
read_back event = record event {
  source = or_default event.source "unknown";
  creator = or_default event.creator (or_default event.source "unknown");
  self_parent_id = parent_or event.self_parent_id (first_of event.parents);
  other_parent_id = parent_or event.other_parent_id (second_of event.parents);
}

-- The row of an event that is stored already, where a time is given.
unfoldable pub timed_row : Option Time → Event → Database → Database
unfolding update_event timed
timed_row none event db = db
timed_row (some ts) event db = record db {
  events = update_event event.id (timed (some ts) event) db.events;
}

-- `payload_json` is `json.dumps` of a payload, and `now` the time of the call.
module _ (payload_json : Dict String Json → String) (now : Time) where
  unfoldable pub insert_row : Option Time → Event → Database → Database
  unfolding inserted add_parents
  insert_row consensus_ts event db = record db {
    events =
        db.events
        ++ record {
          event = inserted consensus_ts event;
          payload_text = payload_json event.payload;
          created_at = now;
        }
          ∷ [];
    edges = add_parents event.parents event.id db.edges;
  }

  unfoldable pub store_envelope : Envelope → Option Time → Database → Bool × Database
  unfolding exists_event merge_path_meta timed_row insert_row
  store_envelope envelope consensus_ts db =
      let event = envelope.event in
      if exists_event event.id db.events
      then (false, merge_path_meta event.id envelope.path_meta (timed_row consensus_ts event db))
      else (true, merge_path_meta event.id envelope.path_meta (insert_row consensus_ts event db))

unfoldable pub with_state : ConsensusState → Event → Event
with_state state event = record event {
  consensus_ts = state.consensus_ts;
  round = some state.round;
  round_received = state.round_received;
  is_witness = state.is_witness;
  is_famous_witness = state.is_famous_witness;
  fame_decided = state.fame_decided;
  fame_decision_round = state.fame_decision_round;
  fame_decision_kind = state.fame_decision_kind;
  fame_needs_coin = state.fame_needs_coin;
  fame_coin_used = state.fame_coin_used;
  fame_coin_round = state.fame_coin_round;
  fame_vote_round = state.fame_vote_round;
  fame_vote_yes = state.fame_vote_yes;
  fame_vote_no = state.fame_vote_no;
  self_parent_id = coalesce event.self_parent_id state.self_parent_id;
  other_parent_id = coalesce event.other_parent_id state.other_parent_id;
}

unfoldable pub replace_consensus_state : List ConsensusState → List StoredEvent → List StoredEvent
unfolding update_event with_state
replace_consensus_state [] rows = rows
replace_consensus_state (state ∷ states) rows =
    replace_consensus_state states (update_event state.event_id (with_state state) rows)

-- SELECT * FROM events WHERE id = ?
unfoldable pub find_event : String → List StoredEvent → Option Event
find_event event_id [] = none
find_event event_id (row ∷ rows) =
    let more = find_event event_id rows in if id_of row == event_id then some row.event else more

unfoldable pub get_event : String → List StoredEvent → Option Event
unfolding find_event read_back
get_event event_id rows = elim (find_event event_id rows) [
  | none ↦ none
  | some event ↦ some (read_back event)
]

unfoldable pub get_envelope : String → Database → Option Envelope
unfolding get_event
get_envelope event_id db = elim (get_event event_id db.events) [
  | none ↦ none
  | some event ↦ some (record { event = event; path_meta = get_or event_id [] db.envelopes })
]

-- SELECT * FROM events ORDER BY created_at
unfoldable pub all_events : List StoredEvent → List Event
unfolding read_back
all_events rows =
    map (λ row. read_back row.event) (sort_on (λ (row : StoredEvent). row.created_at) rows)

-- DELETE FROM events, envelopes, edges, event_skeletons
unfoldable pub clear_events : Database → Database
clear_events db = record { events = []; envelopes = []; edges = []; skeletons = [] }
