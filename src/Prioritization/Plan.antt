-- ===== src/Prioritization/Plan.antt =====
-- What a batch holds: no more than the budget, nothing twice, and all that is urgent or waiting.
use hashgraph.Prelude.{
  ℕ, suc, ◌+◌, ◌≤◌, ◌≡◌, refl, String, Bool, true, false, ◌&&◌, ◌||◌, List, [], ◌∷◌, ◌++◌, arith,
  string_eq, nat_eq, nat_ord, pair_ord, ltb, if◌then◌else◌, sort_on, insert_on, count_if, length,
  length-append, Bool-cases, inl, inr,
}
use hashgraph.Models.{EventClass, class_beq, class_a, class_b, class_c, Envelope}
use hashgraph.Prioritization.{
  Settings, should_relay, is_genesis, is_required, urgency, is_b, BatchPlan, is_relayed, max_bytes,
  plan_one, plan_all, new_plan, plan_batch,
}

abbrev pub total : (Envelope → ℕ) → List Envelope → ℕ
total cost [] = 0
total cost (env ∷ envs) = cost env + total cost envs

total-append :
    (cost : Envelope → ℕ) (xs ys : List Envelope)
    → total cost (xs ++ ys) ≡ total cost xs + total cost ys
total-append cost [] ys = omega arith
total-append cost (x ∷ xs) ys = omega (arith, total-append cost xs ys)

count_if-append :
    (p : Envelope → Bool) (xs ys : List Envelope)
    → count_if p (xs ++ ys) ≡ count_if p xs + count_if p ys
unfolding count_if
count_if-append p [] ys = omega arith
count_if-append p (x ∷ xs) ys = omega (arith, count_if-append p xs ys)

count_if-insert_on :
    (p : Envelope → Bool) (x : Envelope) (xs : List Envelope)
    → count_if p (insert_on urgency x xs) ≡ count_if p (x ∷ xs)
unfolding count_if insert_on
count_if-insert_on p x [] = refl
count_if-insert_on p x (y ∷ xs) = ground (arith, count_if-insert_on p x xs)

count_if-sort_on :
    (p : Envelope → Bool) (xs : List Envelope) → count_if p (sort_on urgency xs) ≡ count_if p xs
unfolding count_if sort_on
count_if-sort_on p [] = refl
count_if-sort_on p (x ∷ xs) =
    ground (arith, count_if-insert_on p x (sort_on urgency xs), count_if-sort_on p xs)

-- Envelopes of class A or B, and genesis events, are urgent.
abbrev pub is_urgent : Envelope → Bool
is_urgent env = is_genesis env.event || class_beq env.event.cls class_a || is_b env.event.cls

module _ (cost : Envelope → ℕ) (cfg : Settings) where
  Fits : BatchPlan → Type 0
  Fits plan = (plan.total_bytes ≡ total cost plan.envelopes) × (plan.total_bytes ≤ max_bytes cfg)

  plan_one-Fits :
      (plan : BatchPlan) (env : Envelope) → Fits plan → Fits (plan_one cost cfg plan env)
  unfolding Fits plan_one
  plan_one-Fits plan env (e, le) = elim (Bool-cases (is_relayed cfg plan.required env.event)) [
    | inl relay ↦ elim (Bool-cases (ltb (max_bytes cfg) (plan.total_bytes + cost env))) [
      | inl over ↦ rw (relay, over) (e, le)
      | inr fits ↦
          rw (relay, fits)
            (omega (arith, e, total-append cost plan.envelopes (env ∷ [])), ground (arith, fits))
    ]
    | inr skip ↦ rw skip (e, le)
  ]

  plan_all-Fits :
      (plan : BatchPlan) (envs : List Envelope) → Fits plan → Fits (plan_all cost cfg plan envs)
  unfolding plan_all
  plan_all-Fits plan [] h = h
  plan_all-Fits plan (env ∷ rest) h =
      plan_all-Fits (plan_one cost cfg plan env) rest (plan_one-Fits plan env h)

  -- The bytes of a batch are those of its envelopes, and no more than the smaller of the bandwidth
  -- budget of a gossip period and the configured size of a batch.
  pub plan_batch_budget :
      (envelopes : List Envelope) (required : List String)
      → ((plan_batch cost cfg envelopes required).total_bytes
          ≡ total cost (plan_batch cost cfg envelopes required).envelopes)
        × ((plan_batch cost cfg envelopes required).total_bytes ≤ max_bytes cfg)
  unfolding plan_batch Fits
  plan_batch_budget envelopes required =
      plan_all-Fits (new_plan required) (sort_on urgency envelopes) (refl, omega arith)

  -- How many of the envelopes that pass a test the batch or the deferred list holds.
  abbrev held : (Envelope → Bool) → BatchPlan → ℕ
  held p plan = count_if p plan.envelopes + count_if p plan.deferred

  plan_one-held :
      (p : Envelope → Bool) (plan : BatchPlan) (env : Envelope)
      → held p (plan_one cost cfg plan env)
        ≡ (if is_relayed cfg plan.required env.event && p env then 1 else 0) + held p plan
  unfolding plan_one count_if
  plan_one-held p plan env =
      let sent = count_if-append p plan.envelopes (env ∷ []) in
      let waits = count_if-append p plan.deferred (env ∷ []) in
      elim (Bool-cases (is_relayed cfg plan.required env.event)) [
        | inl relay ↦ elim (Bool-cases (ltb (max_bytes cfg) (plan.total_bytes + cost env))) [
          | inl over ↦ rw (relay, over) (omega (arith, waits))
          | inr fits ↦ rw (relay, fits) (omega (arith, sent))
        ]
        | inr skip ↦ rw skip (omega arith)
      ]

  urgent-is_relayed :
      (required : List String) (env : Envelope)
      → is_urgent env ≡ true
      → is_relayed cfg required env.event ≡ true
  unfolding is_relayed should_relay
  urgent-is_relayed required env h =
      go env.event.cls (is_required required env.event) (is_genesis env.event) h
    where
      go :
          (cls : EventClass) (r g : Bool)
          → (g || class_beq cls class_a || is_b cls) ≡ true
          → should_relay cfg cls r (g || is_b cls) ≡ true
      go class_a r true k = refl
      go class_a r false k = refl
      go class_b r true k = refl
      go class_b r false k = refl
      go class_c r true k = refl
      go class_c r false k = cc

  plan_all-held :
      (p : Envelope → Bool) (plan : BatchPlan) (envs : List Envelope)
      → ((env : Envelope) → p env ≡ true → is_urgent env ≡ true)
      → held p (plan_all cost cfg plan envs) ≡ count_if p envs + held p plan
  unfolding plan_all count_if
  plan_all-held p plan [] h = omega arith
  plan_all-held p plan (env ∷ rest) h =
      let one : held p (plan_one cost cfg plan env) ≡ (if p env then 1 else 0) + held p plan =
        elim (Bool-cases (p env)) [
          | inl yes_p ↦
              ground
                (arith, plan_one-held p plan env, urgent-is_relayed plan.required env (h env yes_p))
          | inr no_p ↦ ground (arith, plan_one-held p plan env)
        ] in
      omega (arith, one, plan_all-held p (plan_one cost cfg plan env) rest h)

  -- Urgent envelopes are never dropped: of every kind of them the batch and the deferred list
  -- together hold exactly as many as were given.
  pub urgent_kept :
      (p : Envelope → Bool) (envelopes : List Envelope) (required : List String)
      → ((env : Envelope) → p env ≡ true → is_urgent env ≡ true)
      → count_if p (plan_batch cost cfg envelopes required).envelopes
          + count_if p (plan_batch cost cfg envelopes required).deferred
        ≡ count_if p envelopes
  unfolding plan_batch count_if
  urgent_kept p envelopes required h = omega (
    arith,
    plan_all-held p (new_plan required) (sort_on urgency envelopes) h,
    count_if-sort_on p envelopes,
  )

  plan_one-accounts :
      (plan : BatchPlan) (env : Envelope)
      → length (plan_one cost cfg plan env).envelopes
          + length (plan_one cost cfg plan env).deferred
          + (plan_one cost cfg plan env).dropped
        ≡ suc (length plan.envelopes + length plan.deferred + plan.dropped)
  unfolding plan_one
  plan_one-accounts plan env =
      let sent = length-append plan.envelopes (env ∷ []) in
      let waits = length-append plan.deferred (env ∷ []) in
      elim (Bool-cases (is_relayed cfg plan.required env.event)) [
        | inl relay ↦ elim (Bool-cases (ltb (max_bytes cfg) (plan.total_bytes + cost env))) [
          | inl over ↦ rw (relay, over) (omega (arith, waits))
          | inr fits ↦ rw (relay, fits) (omega (arith, sent))
        ]
        | inr skip ↦ rw skip (omega arith)
      ]

  plan_all-accounts :
      (plan : BatchPlan) (envs : List Envelope)
      → length (plan_all cost cfg plan envs).envelopes
          + length (plan_all cost cfg plan envs).deferred
          + (plan_all cost cfg plan envs).dropped
        ≡ length envs + (length plan.envelopes + length plan.deferred + plan.dropped)
  unfolding plan_all
  plan_all-accounts plan [] = omega arith
  plan_all-accounts plan (env ∷ rest) =
      omega (arith, plan_one-accounts plan env, plan_all-accounts (plan_one cost cfg plan env) rest)

  length-count_if : (xs : List Envelope) → count_if (λ _. true) xs ≡ length xs
  unfolding count_if
  length-count_if [] = refl
  length-count_if (x ∷ xs) = omega (arith, length-count_if xs)

  -- Every envelope is accounted for: it is in the batch, deferred or counted as dropped.
  pub plan_batch_accounts :
      (envelopes : List Envelope) (required : List String)
      → length (plan_batch cost cfg envelopes required).envelopes
          + length (plan_batch cost cfg envelopes required).deferred
          + (plan_batch cost cfg envelopes required).dropped
        ≡ length envelopes
  unfolding plan_batch
  plan_batch_accounts envelopes required = omega (
    arith,
    plan_all-accounts (new_plan required) (sort_on urgency envelopes),
    length-count_if (sort_on urgency envelopes),
    length-count_if envelopes,
    count_if-sort_on (λ _. true) envelopes,
  )
