-- ===== src/Tests/Tables.antt =====
-- Runs of the theorems on the tables of events.
use hashgraph.Prelude.{
  string_eq, ℕ, ◌*◌, ◌≤◌, ◌≡◌, refl, String, false, some, [], ◌∷◌, keep, contains, nodup, not,
}
use hashgraph.Models.{Event}
use hashgraph.Storage.{
  StoredEvent, Database, is_eligible, prune_under_checkpoint, usage, gc_by_quota,
}
use hashgraph.Storage.Prune.{prune_removes_eligible}
use hashgraph.Storage.Quota.{gc_by_quota_fits}
use hashgraph.Tests.Samples.{first_event, second_event}

abbrev received_at : ℕ → Event → Event
received_at r event = record event { round_received = some r }

abbrev database : Database
database = record {
  events =
      record { event = received_at 1 first_event; payload_text = "{}"; created_at = 3 }
      ∷ record { event = received_at 4 second_event; payload_text = "{}"; created_at = 5 }
      ∷ [];
  envelopes = ("a0", []) ∷ ("b0", []) ∷ [];
  edges = ("a0", "b0") ∷ [];
  skeletons = [];
}

abbrev same_text : String → String
same_text s = s

prune_removes_eligible_example :
    ((prune_under_checkpoint same_text 9 2 8 false database).1.events
      ≡ keep (λ row. not (is_eligible 2 8 false row)) database.events)
    × ((prune_under_checkpoint same_text 9 2 8 false database).1.edges ≡ database.edges)
unfolding nodup contains
prune_removes_eligible_example = prune_removes_eligible same_text 9 2 8 false database refl

abbrev payload_size : StoredEvent → ℕ
payload_size row = 700000

gc_by_quota_fits_example :
    usage payload_size (gc_by_quota payload_size 1 database).1.events ≤ 1 * 1024 * 1024
unfolding nodup contains
gc_by_quota_fits_example = gc_by_quota_fits payload_size 1 database refl
