-- ===== src/Gossip/Queue.antt =====
-- The queue holds each pending event once, and the set of known ids is that of the queue.
use hashgraph.Prelude.{
  ℕ, ◌*◌, ◌≡◌, refl, sym, ◌∙◌, ap, String, Bool, true, false, ◌&&◌, not, Option, none, some, List,
  [], ◌∷◌, ◌++◌, arith, string_eq, nat_eq, ◌==◌, contains, contains-append, keep, is_empty, length,
  nodup, Bool-cases, inl, inr, contains-keep,
}
use hashgraph.Models.{Envelope, Time}
use hashgraph.Prioritization.{Settings, BatchPlan, plan_batch}
use hashgraph.Gossip.{
  PendingQueue, add_pending, add_all, requeue_envelopes, with_found, collect, collect_pending,
  required_events, Sends, taken, send_batch, tick,
}

-- The two fields hold the same ids, and the queue holds each once.
pub record IsQueue (q : PendingQueue) : Type 0 where
  pub once : nodup q.pending ≡ true
  pub same : (k : String) → contains q.known_pending k ≡ contains q.pending k

nodup_snoc :
    (xs : List String) (a : String)
    → nodup xs ≡ true
    → contains xs a ≡ false
    → nodup (xs ++ a ∷ []) ≡ true
unfolding nodup contains
nodup_snoc [] a h k = refl
nodup_snoc (x ∷ xs) a h k = ground (
  arith,
  nodup_snoc xs a,
  contains-append xs (a ∷ []) x,
  string_eq.beq_iff a x,
  string_eq.beq_iff x a,
)

pub add_pending-IsQueue :
    (event_id : String) (q : PendingQueue) → IsQueue q → IsQueue (add_pending event_id q)
unfolding add_pending contains
add_pending-IsQueue event_id q h = elim (Bool-cases (contains q.known_pending event_id)) [
  | inl there ↦ rw there h
  | inr new ↦ rw new (record {
    once = nodup_snoc q.pending event_id h.once (sym (h.same event_id) ∙ new);
    same = λ k. ground (arith, h.same k, contains-append q.pending (event_id ∷ []) k);
  })
]

pub add_all-IsQueue : (ids : List String) (q : PendingQueue) → IsQueue q → IsQueue (add_all ids q)
unfolding add_all
add_all-IsQueue [] q h = h
add_all-IsQueue (k ∷ ids) q h = add_all-IsQueue ids (add_pending k q) (add_pending-IsQueue k q h)

pub requeue-IsQueue :
    (envs : List Envelope) (q : PendingQueue) → IsQueue q → IsQueue (requeue_envelopes envs q)
unfolding requeue_envelopes
requeue-IsQueue [] q h = h
requeue-IsQueue (env ∷ envs) q h =
    requeue-IsQueue envs (add_pending env.event.id q) (add_pending-IsQueue env.event.id q h)

-- Once the queue is drained no id of it is known.
collect-known :
    (node_id : String) (now : String → Time) (stored : String → Option Envelope)
    (ids known : List String) (k : String)
    → contains (collect node_id now stored ids known).1 k
      ≡ (contains known k && not (contains ids k))
unfolding collect contains
collect-known node_id now stored [] known k = ground arith
collect-known node_id now stored (i ∷ ids) known k =
    ap (λ ids. contains ids k)
      (known-with_found (stored i)
        (collect node_id now stored ids (keep (λ j. not (j == i)) known)))
    ∙ ground (
      arith,
      collect-known node_id now stored ids (keep (λ j. not (j == i)) known) k,
      contains-keep (λ j. not (j == i)) known k,
      string_eq.beq_iff i k,
      string_eq.beq_iff k i,
    )
  where
    known-with_found :
        (o : Option Envelope) (rest : List Envelope × List String)
        → (with_found node_id (now i) o rest).1 ≡ rest.1
    known-with_found none rest = refl
    known-with_found (some env) rest = refl

pub collect-IsQueue :
    (node_id : String) (now : String → Time) (stored : String → Option Envelope) (q : PendingQueue)
    → IsQueue q
    → IsQueue (collect_pending node_id now stored q).1
unfolding collect_pending nodup contains
collect-IsQueue node_id now stored q h = record {
  once = refl;
  same =
      λ k. ground (arith, collect-known node_id now stored q.pending q.known_pending k, h.same k);
}

send_batch-IsQueue :
    (plan : BatchPlan) (outcomes : Option (List Bool)) (meanwhile : List String) (q : PendingQueue)
    → IsQueue q
    → IsQueue (send_batch plan (record { outcomes = outcomes; meanwhile = meanwhile }) q).1
unfolding send_batch
send_batch-IsQueue plan none meanwhile q h = requeue-IsQueue plan.envelopes q h
send_batch-IsQueue plan (some outcomes) meanwhile q h =
    let later = add_all-IsQueue meanwhile q h in
    elim (Bool-cases (taken outcomes * length plan.envelopes == 0)) [
      | inl nobody ↦ rw nobody (requeue-IsQueue plan.envelopes (add_all meanwhile q) later)
      | inr somebody ↦ rw somebody later
    ]

module _ (bytes_cost : Envelope → ℕ) (cfg : Settings) (node_id : String) (now : String → Time)
    (stored : String → Option Envelope) (sends : Sends) where
  -- From a queue that holds each pending event once and whose known ids are those of the queue, a
  -- tick, with whatever other tasks enqueue while the batch is sent, leaves such a queue.
  pub tick-IsQueue :
      (q : PendingQueue) → IsQueue q → IsQueue (tick bytes_cost cfg node_id now stored sends q).1
  unfolding tick send_batch
  tick-IsQueue q h =
      let (envelopes, emptied) = collect_pending node_id now stored q in
      let plan = plan_batch bytes_cost cfg envelopes (required_events envelopes) in
      let drained : IsQueue emptied = collect-IsQueue node_id now stored q h in
      let waiting : IsQueue (requeue_envelopes plan.deferred emptied) =
        requeue-IsQueue plan.deferred emptied drained in
      elim (Bool-cases (is_empty envelopes)) [
        | inl none_there ↦ rw none_there drained
        | inr some_there ↦ elim (Bool-cases (is_empty plan.envelopes)) [
          | inl none_fit ↦ rw (some_there, none_fit) waiting
          | inr some_fit ↦
              rw (some_there, some_fit)
                (send_batch-IsQueue plan sends.outcomes sends.meanwhile _ waiting)
        ]
      ]
