-- ===== src/Gossip/Delivery.antt =====
-- A batch that nobody takes is not lost.
use hashgraph.Prelude.{
  ℕ, ◌+◌, ◌*◌, ◌<◌, ◌≡◌, ◌⊎◌, refl, sym, subst, String, Bool, true, ◌&&◌, ◌||◌, not, Option, none,
  some, List, [], ◌∷◌, arith, string_eq, nat_eq, ◌==◌, contains, contains-append, keep, is_empty,
  length, count_if, Bool-cases, ltb, inl, inr,
}
use hashgraph.Models.{Envelope, Time, add_hop}
use hashgraph.Prioritization.{Settings, BatchPlan, plan_batch}
use hashgraph.Prioritization.Plan.{is_urgent, urgent_kept}
use hashgraph.Gossip.{
  PendingQueue, add_pending, add_all, requeue_envelopes, with_found, collect, collect_pending,
  required_events, Sends, taken, send_batch, tick,
}
use hashgraph.Gossip.Queue.{
  IsQueue, add_pending-IsQueue, add_all-IsQueue, requeue-IsQueue, collect-IsQueue,
}

-- An urgent envelope of the event `k`.
abbrev pub is_urgent_of : String → Envelope → Bool
is_urgent_of k env = is_urgent env && env.event.id == k

contains-add_pending :
    (i k : String) (q : PendingQueue)
    → IsQueue q
    → contains (add_pending i q).pending k ≡ (contains q.pending k || i == k)
unfolding add_pending contains
contains-add_pending i k q h =
    ground (arith, h.same k, h.same i, contains-append q.pending (i ∷ []) k, string_eq.beq_iff i k)

contains-add_all :
    (ids : List String) (q : PendingQueue) (k : String)
    → IsQueue q
    → contains q.pending k ≡ true
    → contains (add_all ids q).pending k ≡ true
unfolding add_all
contains-add_all [] q k h c = c
contains-add_all (i ∷ ids) q k h c =
    contains-add_all ids (add_pending i q) k (add_pending-IsQueue i q h)
      (ground (arith, contains-add_pending i k q h, c))

contains-requeue :
    (envs : List Envelope) (q : PendingQueue) (k : String)
    → IsQueue q
    → contains q.pending k ≡ true
    → contains (requeue_envelopes envs q).pending k ≡ true
unfolding requeue_envelopes
contains-requeue [] q k h c = c
contains-requeue (env ∷ envs) q k h c =
    contains-requeue envs (add_pending env.event.id q) k (add_pending-IsQueue env.event.id q h)
      (ground (arith, contains-add_pending env.event.id k q h, c))

requeue-finds :
    (envs : List Envelope) (q : PendingQueue) (k : String)
    → IsQueue q
    → 0 < count_if (is_urgent_of k) envs
    → contains (requeue_envelopes envs q).pending k ≡ true
unfolding requeue_envelopes count_if
requeue-finds [] q k h c = absurd (omega (arith, c))
requeue-finds (env ∷ envs) q k h c =
    let q' = add_pending env.event.id q in
    let h' = add_pending-IsQueue env.event.id q h in
    elim (Bool-cases (is_urgent_of k env)) [
      | inl this ↦
          contains-requeue envs q' k h'
            (ground (arith, this, contains-add_pending env.event.id k q h))
      | inr other ↦ requeue-finds envs q' k h' (ground (arith, other, c))
    ]

collect-finds :
    (node_id : String) (now : String → Time) (stored : String → Option Envelope)
    (ids known : List String) (k : String) (env : Envelope)
    → stored k ≡ some env
    → is_urgent_of k env ≡ true
    → contains ids k ≡ true
    → 0 < count_if (is_urgent_of k) (collect node_id now stored ids known).0
unfolding collect contains count_if add_hop
collect-finds node_id now stored [] known k env s u c = cc
collect-finds node_id now stored (i ∷ ids) known k env s u c =
    let rest = collect node_id now stored ids (keep (λ j. not (j == i)) known) in
    elim (Bool-cases (i == k)) [
      | inl same ↦
          let here : stored i ≡ some env =
            subst (λ j. stored j ≡ some env) (sym ((string_eq.beq_iff i k).0 same)) s in
          rw here (ground (arith, u))
      | inr differs ↦ grows (stored i) rest (
          collect-finds node_id now stored ids (keep (λ j. not (j == i)) known) k env s u
            (ground arith))
    ]
  where
    grows :
        (o : Option Envelope) (rest : List Envelope × List String)
        → 0 < count_if (is_urgent_of k) rest.0
        → 0 < count_if (is_urgent_of k) (with_found node_id (now i) o rest).0
    grows none rest h = h
    grows (some found) rest h = ground (arith, h)

empty_count :
    (k : String) (envs : List Envelope) → is_empty envs ≡ true → count_if (is_urgent_of k) envs ≡ 0
unfolding count_if
empty_count k [] e = refl
empty_count k (x ∷ xs) e = cc

deferred_or_sent :
    (k : String) (plan : BatchPlan) (q : PendingQueue)
    → IsQueue q
    → 0 < count_if (is_urgent_of k) plan.envelopes + count_if (is_urgent_of k) plan.deferred
    → (contains (requeue_envelopes plan.deferred q).pending k ≡ true)
      ⊎ (0 < count_if (is_urgent_of k) plan.envelopes)
deferred_or_sent k plan q h l =
    elim (Bool-cases (ltb 0 (count_if (is_urgent_of k) plan.deferred))) [
      | inl some_wait ↦ inl (requeue-finds plan.deferred q k h (ground (arith, some_wait)))
      | inr none_wait ↦ inr (ground (arith, none_wait, l))
    ]

-- The batch is enqueued again where nobody took it.
resent :
    (k : String) (plan : BatchPlan) (outcomes : Option (List Bool)) (meanwhile : List String)
    (q : PendingQueue)
    → IsQueue q
    → (contains q.pending k ≡ true) ⊎ (0 < count_if (is_urgent_of k) plan.envelopes)
    → (send_batch plan (record { outcomes = outcomes; meanwhile = meanwhile }) q).0.sent ≡ 0
    → contains
        (send_batch plan (record { outcomes = outcomes; meanwhile = meanwhile }) q).1.pending
        k
      ≡ true
unfolding send_batch
resent k plan none meanwhile q h (inl c) e = contains-requeue plan.envelopes q k h c
resent k plan none meanwhile q h (inr c) e = requeue-finds plan.envelopes q k h c
resent k plan (some outcomes) meanwhile q h w e =
    let later = add_all-IsQueue meanwhile q h in
    let nobody : (taken outcomes * length plan.envelopes == 0) ≡ true =
      (nat_eq.beq_iff (taken outcomes * length plan.envelopes) 0).1 e in
    elim w [
      | inl c ↦ rw nobody (
          contains-requeue plan.envelopes (add_all meanwhile q) k later
            (contains-add_all meanwhile q k h c))
      | inr c ↦ rw nobody (requeue-finds plan.envelopes (add_all meanwhile q) k later c)
    ]

module _ (bytes_cost : Envelope → ℕ) (cfg : Settings) (node_id : String) (now : String → Time)
    (stored : String → Option Envelope) (sends : Sends) where
  -- From a queue that holds each pending event once, an urgent event that is pending and stored is still pending after a tick in which no peer took a
  -- batch, whatever is enqueued meanwhile.
  pub tick_loses_nothing :
      (q : PendingQueue) (k : String) (env : Envelope)
      → IsQueue q
      → contains q.pending k ≡ true
      → stored k ≡ some env
      → is_urgent_of k env ≡ true
      → (tick bytes_cost cfg node_id now stored sends q).0.sent ≡ 0
      → contains (tick bytes_cost cfg node_id now stored sends q).1.pending k ≡ true
  unfolding tick collect_pending
  tick_loses_nothing q k env h c s u =
      let envelopes = (collect node_id now stored q.pending q.known_pending).0 in
      let emptied = (collect_pending node_id now stored q).1 in
      let plan = plan_batch bytes_cost cfg envelopes (required_events envelopes) in
      let drained : IsQueue emptied = collect-IsQueue node_id now stored q h in
      let waiting : IsQueue (requeue_envelopes plan.deferred emptied) =
        requeue-IsQueue plan.deferred emptied drained in
      let there = collect-finds node_id now stored q.pending q.known_pending k env s u c in
      let kept =
        urgent_kept bytes_cost cfg (is_urgent_of k) envelopes (required_events envelopes)
          (λ e t. ground (arith, t)) in
      elim (Bool-cases (is_empty envelopes)) [
        | inl none_there ↦ absurd (omega (arith, empty_count k envelopes none_there, there))
        | inr some_there ↦ elim (Bool-cases (is_empty plan.envelopes)) [
          | inl none_fit ↦
              rw (some_there, none_fit)
                (λ e.
                  requeue-finds plan.deferred emptied k drained
                    (omega (arith, kept, there, empty_count k plan.envelopes none_fit)))
          | inr some_fit ↦
              rw (some_there, some_fit)
                (resent k plan sends.outcomes sends.meanwhile
                  (requeue_envelopes plan.deferred emptied) waiting
                  (deferred_or_sent k plan emptied drained (omega (arith, kept, there))))
        ]
      ]
