-- ===== src/Consensus/Order/Laws.antt =====
-- The total order holds the given events, ascends, and does not depend on how they were listed.
use mathlib.Core.List.{Perm, Permᴰ}
use hashgraph.Prelude.{
  ℕ, suc, ◌≡◌, ◌≢◌, refl, sym, ◌∙◌, ap, String, true, false, ◌||◌, Option, List, [], ◌∷◌, map,
  arith, string_eq, nat_ord, text_ord, option_ord, pair_ord, Ord, le_of, text_le_antisym, sort_on,
  insert_on, AllApart, KeysApart, IsSortedOn, sort_on-perm, sort_on-IsSortedOn, sort_on-Permᴰ,
  contains, nodup, ◌==◌, Bool-cases, inl, inr,
}
use hashgraph.Models.{Event, Time}
use hashgraph.Consensus.Order.{Resolved, placement, key_of, enumerate, total_order}
use hashgraph.Consensus.Rounds.Final.{ids}

-- The key without the index, which only matters between events of one id.
abbrev pub plain_key : Resolved → Event → Option ℕ × (Option Time × String)
plain_key resolved event =
    let (round_received, consensus_ts) = placement resolved event in
    (round_received, (consensus_ts, event.id))

-- Between events with different ids the index does not count.
index_idle :
    {A B : Type 0} ⦃o : Ord A⦄ ⦃p : Ord B⦄ (a a' : A) (b b' : B) (s s' : String) (i j : ℕ)
    → s ≢ s'
    → le_of {A = A × (B × (String × ℕ))} (a, (b, (s, i))) (a', (b', (s', j)))
      ≡ le_of {A = A × (B × String)} (a, (b, s)) (a', (b', s'))
index_idle a a' b b' s s' i j differ = ground (arith, text_le_antisym s s')

module _ (resolved : Resolved) where
  key-le :
      (i j : ℕ) (d e : Event)
      → d.id ≢ e.id
      → le_of (key_of resolved (i, d)) (key_of resolved (j, e))
        ≡ le_of (plain_key resolved d) (plain_key resolved e)
  unfolding key_of
  key-le i j d e differ =
      index_idle {A = Option ℕ} {B = Option Time} (placement resolved d).0 (placement resolved e).0
        (placement resolved d).1 (placement resolved e).1 d.id e.id i j differ

  map-insert_on :
      (i : ℕ) (d : Event) (l : List (ℕ × Event))
      → contains (ids (map (λ x. x.1) l)) d.id ≡ false
      → map (λ x. x.1) (insert_on (key_of resolved) (i, d) l)
        ≡ insert_on (plain_key resolved) d (map (λ x. x.1) l)
  unfolding insert_on contains
  map-insert_on i d [] h = refl
  map-insert_on i d ((j, e) ∷ l) h =
      let differ : d.id ≢ e.id = ground (arith, string_eq.beq_iff e.id d.id) in
      elim (Bool-cases (le_of (plain_key resolved d) (plain_key resolved e))) [
        | inl le ↦ rw (key-le i j d e differ, le)
        | inr gt ↦ rw (key-le i j d e differ, gt) (ap (◌∷◌ e) (map-insert_on i d l (ground arith)))
      ]

  contains-ids-insert_on :
      (d : Event) (l : List Event) (k : String)
      → contains (ids (insert_on (plain_key resolved) d l)) k ≡ (d.id == k || contains (ids l) k)
  unfolding insert_on contains
  contains-ids-insert_on d [] k = refl
  contains-ids-insert_on d (e ∷ l) k = ground (arith, contains-ids-insert_on d l k)

  contains-ids-sort_on :
      (es : List Event) (k : String)
      → contains (ids (sort_on (plain_key resolved) es)) k ≡ contains (ids es) k
  unfolding sort_on contains
  contains-ids-sort_on [] k = refl
  contains-ids-sort_on (e ∷ es) k = ground (
    arith,
    contains-ids-insert_on e (sort_on (plain_key resolved) es) k,
    contains-ids-sort_on es k,
  )

  -- With each id once, the decorated sort is the sort by the plain key.
  pub order_plain :
      (es : List Event) (i : ℕ)
      → nodup (ids es) ≡ true
      → map (λ x. x.1) (sort_on (key_of resolved) (enumerate i es))
        ≡ sort_on (plain_key resolved) es
  unfolding sort_on enumerate nodup
  order_plain [] i h = refl
  order_plain (e ∷ es) i h =
      let rest = order_plain es (suc i) (ground arith) in
      let fresh : contains (ids (map (λ x. x.1) (sort_on (key_of resolved) (enumerate (suc i) es))))
            e.id
          ≡ false =
        rw (rest, contains-ids-sort_on es e.id) (ground arith) in
      map-insert_on i e (sort_on (key_of resolved) (enumerate (suc i) es)) fresh
      ∙ ap (insert_on (plain_key resolved) e) rest

  keys_apart : (es : List Event) → nodup (ids es) ≡ true → KeysApart (plain_key resolved) es
  unfolding nodup contains
  keys_apart [] h = tt
  keys_apart (e ∷ es) h = (apart es (ground arith), keys_apart es (ground arith))
    where
      apart :
          (l : List Event)
          → contains (ids l) e.id ≡ false
          → AllApart (plain_key resolved) (plain_key resolved e) l
      apart [] k = tt
      apart (d ∷ l) k = (
        (λ same. ground (arith, string_eq.beq_iff d.id e.id, ap (λ q. q.1.1) same)),
        apart l (ground arith),
      )

  -- The total order holds the given events, each as often as it was given.
  pub total_order-perm :
      (es : List Event) → nodup (ids es) ≡ true → Perm (total_order resolved es) es
  unfolding total_order
  total_order-perm es h = rw (order_plain es 0 h) (sort_on-perm (plain_key resolved) es)

  -- Events come in ascending order of round received, consensus time and id, missing values last.
  pub total_order-IsSortedOn :
      (es : List Event)
      → nodup (ids es) ≡ true
      → IsSortedOn (plain_key resolved) (total_order resolved es)
  unfolding total_order
  total_order-IsSortedOn es h = rw (order_plain es 0 h) (sort_on-IsSortedOn (plain_key resolved) es)

  -- Two listings of the same events, each id once, in whatever order, have the same total order for
  -- the same rounds and times.
  pub total_order_agrees :
      (es ds : List Event)
      → Permᴰ es ds
      → nodup (ids es) ≡ true
      → nodup (ids ds) ≡ true
      → total_order resolved es ≡ total_order resolved ds
  unfolding total_order
  total_order_agrees es ds p he hd =
      order_plain es 0 he
      ∙ sort_on-Permᴰ (plain_key resolved) p (keys_apart es he)
      ∙ sym (order_plain ds 0 hd)
