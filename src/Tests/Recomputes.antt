-- ===== src/Tests/Recomputes.antt =====
-- Runs of the recomputation of the consensus states.
use hashgraph.Prelude.{
  ℕ, ◌≡◌, refl, String, List, [], ◌∷◌, string_eq, nat_eq, ◌==◌, if◌then◌else◌, ok, contains, nodup,
  all,
}
use hashgraph.Models.{Time}
use hashgraph.Storage.{Database}
use hashgraph.Node.Recompute.{recompute_consensus}
use hashgraph.Node.Recompute.Written.{IsWritten, recompute_consensus_writes}
use hashgraph.Tests.Samples.{first_event, second_event, digest, entries}

abbrev two_rows : Database
two_rows = record {
  events =
      record { event = second_event; payload_text = "{}"; created_at = 3 }
      ∷ record { event = first_event; payload_text = "{}"; created_at = 4 }
      ∷ [];
  envelopes = [];
  edges = ("a0", "b0") ∷ [];
  skeletons = [];
}

abbrev depth : String → ℕ
depth k = if k == "b0" then 1 else 0

abbrev lower : Time → Time → Time
lower a b = a

recompute_consensus_writes_example :
    (order : List String) × ((after : Database) × ((recompute_consensus digest lower "a" entries
            two_rows
          ≡ ok after)
        × IsWritten digest lower "a" entries two_rows order after))
unfolding nodup contains all
recompute_consensus_writes_example =
    recompute_consensus_writes digest lower "a" entries depth two_rows refl refl
