-- ===== src/Gossip.antt =====
-- mdrj/gossip.py: the queue of pending events and one tick of the gossip loop. The peers, the sends
-- and what other tasks enqueue while a batch is being sent are arguments of a tick.
pub mod Queue
pub mod Delivery
use hashgraph.Prelude.{
  ℕ, zero, suc, ◌+◌, ◌*◌, ◌≡◌, String, Bool, true, false, ◌&&◌, ◌||◌, not, Option, none, some, List,
  [], ◌∷◌, ◌++◌, string_eq, nat_eq, if◌then◌else◌, ◌==◌, contains, keep, is_empty, length, count_if,
}
use hashgraph.Models.{Event, EventClass, class_a, class_b, class_c, Envelope, Time, add_hop}
use hashgraph.Prioritization.{Settings, BatchPlan, plan_batch}

-- `_pending` and `_known_pending`.
pub record PendingQueue : Type 0 where
  pub pending : List String
  pub known_pending : List String

unfoldable pub add_pending : String → PendingQueue → PendingQueue
add_pending event_id q =
    if contains q.known_pending event_id
    then q
    else record { pending = q.pending ++ event_id ∷ []; known_pending = event_id ∷ q.known_pending }

unfoldable pub add_all : List String → PendingQueue → PendingQueue
unfolding add_pending
add_all [] q = q
add_all (event_id ∷ ids) q = add_all ids (add_pending event_id q)

unfoldable pub requeue_envelopes : List Envelope → PendingQueue → PendingQueue
unfolding add_pending
requeue_envelopes [] q = q
requeue_envelopes (env ∷ envs) q = requeue_envelopes envs (add_pending env.event.id q)

-- `if not envelope: continue`, or the envelope with this node's hop.
abbrev pub with_found :
    String → Time → Option Envelope → List Envelope × List String → List Envelope × List String
with_found node_id ts none rest = rest
with_found node_id ts (some env) (envelopes, known) = (add_hop env node_id ts ∷ envelopes, known)

-- The loop over the queue: the stored envelopes with this hop, and what is left of the known ids.
unfoldable pub collect :
    String
    → (String → Time)
    → (String → Option Envelope)
    → List String
    → List String
    → List Envelope × List String
collect node_id now stored [] known = ([], known)
collect node_id now stored (event_id ∷ ids) known =
    with_found node_id (now event_id) (stored event_id)
      (collect node_id now stored ids (keep (λ k. not (k == event_id)) known))

unfoldable pub collect_pending :
    String
    → (String → Time)
    → (String → Option Envelope)
    → PendingQueue
    → List Envelope × PendingQueue
unfolding collect
collect_pending node_id now stored q =
    let (envelopes, left) = collect node_id now stored q.pending q.known_pending in
    (envelopes, record { pending = []; known_pending = left })

abbrev pub is_urgent_class : EventClass → Bool
is_urgent_class class_c = false
is_urgent_class _ = true

-- The ids and the parents of the events of class A and B.
unfoldable pub required_events : List Envelope → List String
required_events [] = []
required_events (env ∷ envs) =
    let rest = required_events envs in
    if is_urgent_class env.event.cls then env.event.id ∷ (env.event.parents ++ rest) else rest

pub record GossipStats : Type 0 where
  pub sent : ℕ
  pub peers_contacted : ℕ
  pub dropped : ℕ

-- The sends of a batch: `none` when there are no peers, else whether each selected peer took it, and
-- the events that other tasks enqueued meanwhile.
pub record Sends : Type 0 where
  pub outcomes : Option (List Bool)
  pub meanwhile : List String

abbrev pub taken : List Bool → ℕ
taken outcomes = count_if (λ ok. ok) outcomes

unfoldable pub send_batch : BatchPlan → Sends → PendingQueue → GossipStats × PendingQueue
unfolding requeue_envelopes add_all
send_batch plan sends q = elim sends.outcomes [
  | none ↦ (
    record { sent = 0; peers_contacted = 0; dropped = plan.dropped },
    requeue_envelopes plan.envelopes q,
  )
  | some outcomes ↦
      let sent_total = taken outcomes * length plan.envelopes in
      let later = add_all sends.meanwhile q in
      (
        record { sent = sent_total; peers_contacted = length outcomes; dropped = plan.dropped },
        if sent_total == 0 then requeue_envelopes plan.envelopes later else later,
      )
]

-- One tick. `bytes_cost` is the number of bytes of an envelope's JSON text, `stored` the database.
unfoldable pub tick :
    (Envelope → ℕ)
    → Settings
    → String
    → (String → Time)
    → (String → Option Envelope)
    → Sends
    → PendingQueue
    → GossipStats × PendingQueue
unfolding collect_pending required_events requeue_envelopes send_batch
tick bytes_cost cfg node_id now stored sends q =
    let (envelopes, emptied) = collect_pending node_id now stored q in
    let plan = plan_batch bytes_cost cfg envelopes (required_events envelopes) in
    let waiting = requeue_envelopes plan.deferred emptied in
    if is_empty envelopes
    then (record { sent = 0; peers_contacted = 0; dropped = 0 }, emptied)
    else if is_empty plan.envelopes
    then (record { sent = 0; peers_contacted = 0; dropped = plan.dropped }, waiting)
    else send_batch plan sends waiting
