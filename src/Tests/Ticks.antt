-- ===== src/Tests/Ticks.antt =====
-- Runs of the theorems on the gossip queue.
use hashgraph.Prelude.{
  true, ◌≡◌, sort_on, insert_on, any, keep, count_if, nat_ord, pair_ord, nat_eq, ℕ, refl, arith,
  String, false, Option, none, some, [], ◌∷◌, string_eq, contains, nodup, ◌==◌, if◌then◌else◌,
}
use hashgraph.Dict.{get}
use hashgraph.Models.{add_hop, Envelope, Time}
use hashgraph.Prioritization.{
  Settings, plan_batch, plan_all, plan_one, is_relayed, should_relay, is_required, is_genesis,
  is_truthy, max_bytes, bandwidth_budget_bytes,
}
use hashgraph.Gossip.{
  PendingQueue, Sends, tick, collect_pending, collect, required_events, requeue_envelopes,
  send_batch, add_all, add_pending,
}
use hashgraph.Gossip.Delivery.{tick_loses_nothing}
use hashgraph.Gossip.Queue.{IsQueue, tick-IsQueue}
use hashgraph.Tests.Samples.{first_event}

abbrev settings : Settings
settings = record {
  bw_kbps = 8;
  threat_level = "LOW";
  level_threshold_b = "ELEV";
  max_batch_bytes = 150;
  in_period = λ n. n;
}

abbrev queue : PendingQueue
queue = record { pending = "a0" ∷ "b0" ∷ []; known_pending = "b0" ∷ "a0" ∷ [] }

abbrev stored : String → Option Envelope
stored k = if k == "a0" then some (record { event = first_event; path_meta = [] }) else none

abbrev cost : Envelope → ℕ
cost env = 100

abbrev clock : String → Time
clock k = 3

abbrev sends : Sends
sends = record { outcomes = some (false ∷ []); meanwhile = "c0" ∷ [] }

queue-IsQueue : IsQueue queue
unfolding nodup contains
queue-IsQueue = record { once = refl; same = λ k. ground arith }

tick-IsQueue_example : IsQueue (tick cost settings "n" clock stored sends queue).1
tick-IsQueue_example = tick-IsQueue cost settings "n" clock stored sends queue queue-IsQueue

tick_loses_nothing_example :
    contains (tick cost settings "n" clock stored sends queue).1.pending "a0" ≡ true
unfolding tick collect_pending collect add_hop required_events requeue_envelopes send_batch add_all
    add_pending plan_batch plan_all plan_one is_relayed should_relay is_required is_genesis
    is_truthy max_bytes bandwidth_budget_bytes sort_on insert_on contains any keep count_if get
tick_loses_nothing_example =
    tick_loses_nothing cost settings "n" clock stored sends queue "a0"
      (record { event = first_event; path_meta = [] }) queue-IsQueue refl refl refl refl
