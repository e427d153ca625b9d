-- ===== src/Prioritization.antt =====
-- mdrj/prioritization.py: which of the pending envelopes go into a batch.
pub mod Plan
use hashgraph.Prelude.{
  ℕ, zero, suc, ◌+◌, ◌*◌, ◌/◌, min, max, ◌≡◌, String, Bool, true, false, ◌&&◌, ◌||◌, not, Option,
  none, some, List, [], ◌∷◌, ◌++◌, string_eq, nat_eq, nat_ord, pair_ord, ltb, leb, if◌then◌else◌,
  ◌==◌, contains, any, sort_on,
}
use hashgraph.Dict.{Dict, get}
use hashgraph.Models.{
  EventClass, class_a, class_b, class_c, Time, Json, null, boolean, number, text, array, object,
  Items, nil, cons, Fields, end, field, Event, Envelope,
}

-- THREAT_RANK
abbrev pub threat_rank : String → Option ℕ
threat_rank level =
    if level == "LOW"
    then some 0
    else if level == "ELEV"
    then some 1
    else if level == "HIGH"
    then some 2
    else none

abbrev pub rank_or : ℕ → Option ℕ → ℕ
rank_or default none = default
rank_or default (some rank) = rank

-- What the prioritizer reads of the node's profile and of its configuration. `in_period` is
-- int(n * period_sec), the product of a number of bytes and the gossip period as doubles.
pub record Settings : Type 0 where
  pub bw_kbps : ℕ
  pub threat_level : String
  pub level_threshold_b : String
  pub max_batch_bytes : ℕ
  pub in_period : ℕ → ℕ

unfoldable pub bandwidth_budget_bytes : Settings → ℕ
bandwidth_budget_bytes cfg = max 1024 (cfg.in_period (cfg.bw_kbps * 1000 / 8))

unfoldable pub threshold_allows_b : Settings → Bool
threshold_allows_b cfg =
    leb (rank_or 1 (threat_rank cfg.level_threshold_b)) (rank_or 0 (threat_rank cfg.threat_level))

unfoldable pub should_relay : Settings → EventClass → Bool → Bool → Bool
unfolding threshold_allows_b
should_relay cfg cls required_for_causality true = true
should_relay cfg class_a required_for_causality false = true
should_relay cfg class_b required_for_causality false =
    threshold_allows_b cfg || required_for_causality
should_relay cfg class_c required_for_causality false = required_for_causality

-- Python's truth value of a JSON value.
unfoldable pub is_truthy : Json → Bool
is_truthy null = false
is_truthy (boolean b) = b
is_truthy (number n) = not (n == 0)
is_truthy (text s) = not (s == "")
is_truthy (array nil) = false
is_truthy (array (cons _ _)) = true
is_truthy (object end) = false
is_truthy (object (field _ _ _)) = true

abbrev pub truth_of : Option Json → Bool
truth_of none = false
truth_of (some value) = is_truthy value

unfoldable pub is_genesis : Event → Bool
is_genesis event = truth_of (get "genesis" event.payload)

abbrev pub class_rank : EventClass → ℕ
class_rank class_a = 0
class_rank class_b = 1
class_rank class_c = 2

abbrev pub is_b : EventClass → Bool
is_b class_b = true
is_b _ = false

-- The key of the sort.
abbrev pub urgency : Envelope → ℕ × Time
urgency env = (class_rank env.event.cls, env.event.ts_local)

-- The batch as the loop builds it, and `required`.
pub record BatchPlan : Type 0 where
  pub envelopes : List Envelope
  pub total_bytes : ℕ
  pub dropped : ℕ
  pub deferred : List Envelope
  pub required : List String

unfoldable pub is_required : List String → Event → Bool
unfolding is_genesis
is_required required event =
    contains required event.id || (any (contains required) event.parents || is_genesis event)

unfoldable pub is_relayed : Settings → List String → Event → Bool
unfolding should_relay is_required is_genesis
is_relayed cfg required event =
    should_relay cfg event.cls (is_required required event) (is_genesis event || is_b event.cls)

unfoldable pub max_bytes : Settings → ℕ
unfolding bandwidth_budget_bytes
max_bytes cfg = min (bandwidth_budget_bytes cfg) cfg.max_batch_bytes

abbrev pub new_plan : List String → BatchPlan
new_plan required = record {
  envelopes = [];
  total_bytes = 0;
  dropped = 0;
  deferred = [];
  required = required;
}

-- `bytes_cost` is the number of bytes of an envelope's JSON text.
module _ (bytes_cost : Envelope → ℕ) (cfg : Settings) where
  -- One envelope of the loop.
  unfoldable pub plan_one : BatchPlan → Envelope → BatchPlan
  unfolding is_relayed max_bytes
  plan_one plan env =
      if not (is_relayed cfg plan.required env.event)
      then record plan { dropped = plan.dropped + 1 }
      else if ltb (max_bytes cfg) (plan.total_bytes + bytes_cost env)
      then record plan { deferred = plan.deferred ++ env ∷ [] }
      else record {
        envelopes = plan.envelopes ++ env ∷ [];
        total_bytes = plan.total_bytes + bytes_cost env;
        dropped = plan.dropped;
        deferred = plan.deferred;
        required = plan.required ++ env.event.parents;
      }

  unfoldable pub plan_all : BatchPlan → List Envelope → BatchPlan
  unfolding plan_one
  plan_all plan [] = plan
  plan_all plan (env ∷ rest) = plan_all (plan_one plan env) rest

  unfoldable pub plan_batch : List Envelope → List String → BatchPlan
  unfolding plan_all
  plan_batch envelopes required = plan_all (new_plan required) (sort_on urgency envelopes)
