-- ===== src/Tests/Batches.antt =====
-- Runs of the theorems on batches.
use hashgraph.Prelude.{ℕ, ◌+◌, ◌≡◌, List, [], ◌∷◌, count_if}
use hashgraph.Models.{Envelope}
use hashgraph.Prioritization.{Settings, plan_batch}
use hashgraph.Prioritization.Plan.{is_urgent, urgent_kept}
use hashgraph.Tests.Samples.{first_event, second_event}

abbrev settings : Settings
settings = record {
  bw_kbps = 8;
  threat_level = "LOW";
  level_threshold_b = "ELEV";
  max_batch_bytes = 150;
  in_period = λ n. n;
}

abbrev two_envelopes : List Envelope
two_envelopes =
    record { event = first_event; path_meta = [] }
    ∷ record { event = second_event; path_meta = [] }
    ∷ []

abbrev cost : Envelope → ℕ
cost env = 100

urgent_kept_example :
    count_if is_urgent (plan_batch cost settings two_envelopes []).envelopes
      + count_if is_urgent (plan_batch cost settings two_envelopes []).deferred
    ≡ count_if is_urgent two_envelopes
urgent_kept_example = urgent_kept cost settings is_urgent two_envelopes [] (λ env h. h)
