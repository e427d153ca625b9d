-- ===== src/Storage.antt =====
-- mdrj/storage.py: the tables of events, envelopes, edges and skeletons, and what removes events:
-- `prune_under_checkpoint` and `gc_by_quota`.
pub mod Insert
pub mod Toposort
pub mod Rows
pub mod Prune
pub mod Quota
pub mod Peers
use hashgraph.Prelude.{
  ℕ, zero, suc, ◌+◌, ◌-◌, ◌*◌, ◌≡◌, String, Bool, true, false, ◌&&◌, ◌||◌, not, Option, none, some,
  List, [], ◌∷◌, string_eq, nat_eq, nat_ord, ltb, leb, if◌then◌else◌, ◌==◌, keep, length, sort_on,
}
use hashgraph.Dict.{Dict, put, remove}
use hashgraph.Models.{Event, EventClass, class_a, class_b, class_c, Time, Hop}

-- A row of the table `events`. `payload_text` is the JSON text of the column `payload`.
pub record StoredEvent : Type 0 where
  pub event : Event
  pub payload_text : String
  pub created_at : Time

pub record Skeleton : Type 0 where
  pub cls : EventClass
  pub parent_ids : List String
  pub round_received : Option ℕ
  pub payload_hash : String
  pub archived_at : Time

pub record Database : Type 0 where
  pub events : List StoredEvent
  pub envelopes : Dict String (List Hop)
  pub edges : List (String × String)
  pub skeletons : Dict String Skeleton

abbrev pub id_of : StoredEvent → String
id_of row = row.event.id

-- DELETE FROM events WHERE id = ?
unfoldable pub without_event : String → List StoredEvent → List StoredEvent
without_event event_id rows = keep (λ row. not (id_of row == event_id)) rows

abbrev pub is_a : EventClass → Bool
is_a class_a = true
is_a _ = false

abbrev pub within_round : ℕ → Option ℕ → Bool
within_round confirmed_round none = false
within_round confirmed_round (some r) = leb r confirmed_round

-- The WHERE clause of the pruning. `age_threshold` is now - max_age_seconds.
unfoldable pub is_eligible : ℕ → Time → Bool → StoredEvent → Bool
is_eligible confirmed_round age_threshold keep_class_a row =
    within_round confirmed_round row.event.round_received
    && (ltb row.created_at age_threshold && not (keep_class_a && is_a row.event.cls))

abbrev pub round_or_zero : Option ℕ → ℕ
round_or_zero none = 0
round_or_zero (some r) = r

-- `sha256` is hashlib's: the hexadecimal digest of a text.
module _ (sha256 : String → String) (now : Time) where
  unfoldable pub skeleton_of : StoredEvent → Skeleton
  skeleton_of row = record {
    cls = row.event.cls;
    parent_ids = row.event.parents;
    round_received = row.event.round_received;
    payload_hash = sha256 row.payload_text;
    archived_at = now;
  }

  -- One row of the loop. The edges stay.
  unfoldable pub prune_one : Database → StoredEvent → Database
  unfolding skeleton_of without_event
  prune_one db row = record {
    events = without_event (id_of row) db.events;
    envelopes = remove (id_of row) db.envelopes;
    edges = db.edges;
    skeletons = put (id_of row) (skeleton_of row) db.skeletons;
  }

  unfoldable pub prune_all : Database → List StoredEvent → Database
  unfolding prune_one
  prune_all db [] = db
  prune_all db (row ∷ rows) = prune_all (prune_one db row) rows

  -- The pruned rows, and the database that is left.
  unfoldable pub prune_under_checkpoint : ℕ → Time → Bool → Database → List StoredEvent × Database
  unfolding prune_all is_eligible
  prune_under_checkpoint confirmed_round age_threshold keep_class_a db =
      let rows =
        sort_on (λ (row : StoredEvent). round_or_zero row.event.round_received)
          (keep (is_eligible confirmed_round age_threshold keep_class_a) db.events) in
      (rows, prune_all db rows)

-- `size` is the LENGTH of a row's payload text.
module _ (size : StoredEvent → ℕ) where
  -- SELECT SUM(LENGTH(payload)) FROM events
  unfoldable pub usage : List StoredEvent → ℕ
  usage [] = 0
  usage (row ∷ rows) = size row + usage rows

  -- The rows to delete, oldest first, until the total fits.
  unfoldable pub victims : ℕ → ℕ → List StoredEvent → List StoredEvent
  victims target total [] = []
  victims target total (row ∷ rows) =
      let more = victims target (total - size row) rows in
      if leb total target then [] else row ∷ more

  unfoldable pub delete_event : Database → StoredEvent → Database
  unfolding without_event
  delete_event db row = record {
    events = without_event (id_of row) db.events;
    envelopes = remove (id_of row) db.envelopes;
    edges = keep (λ e. not (e.1 == id_of row) && not (e.0 == id_of row)) db.edges;
    skeletons = db.skeletons;
  }

  unfoldable pub delete_all : Database → List StoredEvent → Database
  unfolding delete_event
  delete_all db [] = db
  delete_all db (row ∷ rows) = delete_all (delete_event db row) rows

  unfoldable pub gc_by_quota : ℕ → Database → ℕ × Database
  unfolding usage victims delete_all
  gc_by_quota memory_mb db =
      let target = memory_mb * 1024 * 1024 in
      let current = usage db.events in
      let to_delete =
        victims target current (sort_on (λ (row : StoredEvent). row.created_at) db.events) in
      if leb current target then (0, db) else (length to_delete, delete_all db to_delete)
