-- ===== src/Consensus/Ancestry/Cached.antt =====
-- The cache of `_ancestor_ids` changes no answer.
use hashgraph.Prelude.{
  ℕ, zero, suc, ◌<◌, ◌≡◌, ◌↔◌, ◌⊎◌, inl, inr, refl, String, true, Option, none, some, List, [], ◌∷◌,
  ◌++◌, arith, string_eq, contains, contains-append, Bool-cases,
}
use hashgraph.Dict.{get, get-put}
use hashgraph.Models.{Event}
use hashgraph.Consensus.Ancestry.{
  Events, Cache, gather_cached, remember, above_event_cached, hit_or, ancestor_ids_cached,
}
use hashgraph.Consensus.Ancestry.Exact.{Ancestor, IsRanked, observer_known}

module _ (by_id : Events) where
  -- The list holds the ancestors of `k`.
  abbrev pub Lists : List String → String → Type 0
  Lists seen k = (t : String) → (contains seen t ≡ true) ↔ Ancestor by_id t k

  abbrev pub CacheIsSound : Cache → Type 0
  CacheIsSound cache = (k : String) (seen : List String) → get k cache ≡ some seen → Lists seen k

  -- An answer of `_ancestor_ids`, with the cache that it leaves.
  abbrev Answers : List String × Cache → String → Type 0
  Answers (seen, cache) k = Lists seen k × CacheIsSound cache

  remember-Answers :
      (k : String) (seen : List String) (cache : Cache)
      → Answers (seen, cache) k
      → Answers (remember k (seen, cache)) k
  remember-Answers k seen cache (exact, sound) = (
    exact,
    λ j found e. elim (Bool-cases (string_eq.beq k j)) [
      | inl same ↦
          let j_is_k = (string_eq.beq_iff k j).0 same in
          let found_is_seen : seen ≡ found = ground (arith, get-put k j seen cache) in
          rw (← j_is_k, ← found_is_seen) exact
      | inr other ↦ sound j found (ground (arith, get-put k j seen cache))
    ],
  )

  -- The ancestors along one of the links `ps`.
  abbrev Above : List String → String → Type 0
  Above ps t = (contains ps t ≡ true) ⊎ ((p : String) × (contains ps p ≡ true) × Ancestor by_id t p)

  Above-cons :
      (p : String) (ps up others : List String) (t : String)
      → (contains up t ≡ true) ↔ Ancestor by_id t p
      → (contains others t ≡ true) ↔ Above ps t
      → (contains (p ∷ (up ++ others)) t ≡ true) ↔ Above (p ∷ ps) t
  unfolding contains
  Above-cons p ps up others t exact rest = (
    λ h. elim (Bool-cases (string_eq.beq p t)) [
      | inl e ↦ inl (ground arith)
      | inr e ↦ elim (Bool-cases (contains up t)) [
        | inl m ↦ inr (p, ground (arith, string_eq.beq_iff p p), exact.0 m)
        | inr m ↦ elim (rest.0 (ground (arith, contains-append up others t))) [
          | inl here ↦ inl (ground arith)
          | inr (q, there, a) ↦ inr (q, ground arith, a)
        ]
      ]
    ],
    λ a. elim a [
      | inl here ↦ elim (Bool-cases (string_eq.beq p t)) [
        | inl e ↦ ground arith
        | inr e ↦ let m = rest.1 (inl (ground arith)) in ground (arith, contains-append up others t)
      ]
      | inr (q, there, b) ↦ elim (Bool-cases (string_eq.beq p q)) [
        | inl e ↦
            let m = exact.1 (rw ((string_eq.beq_iff p q).0 e) b) in
            ground (arith, contains-append up others t)
        | inr e ↦
            let m = rest.1 (inr (q, ground arith, b)) in ground (arith, contains-append up others t)
      ]
    ],
  )

  gather_cached_lem :
      (above : String → Cache → List String × Cache) (ps : List String)
      → ((p : String) (c : Cache) → contains ps p ≡ true → CacheIsSound c → Answers (above p c) p)
      → (cache : Cache) → CacheIsSound cache
      → ((t : String) → (contains (gather_cached above ps cache).0 t ≡ true) ↔ Above ps t)
        × CacheIsSound (gather_cached above ps cache).1
  unfolding contains
  gather_cached_lem above [] step cache sound =
      (λ t. (λ h. cc, λ a. elim a [ inl h ↦ cc | inr (p, h, _) ↦ cc ]), sound)
  gather_cached_lem above (p ∷ ps) step cache sound =
      let (exact, sound') = step p cache (ground (arith, string_eq.beq_iff p p)) sound in
      let (others, sound'') =
        gather_cached_lem above ps (λ q c m s. step q c (ground arith) s) (above p cache).1
          sound' in
      (λ t. Above-cons p ps (above p cache).0 _ t (exact t) (others t), sound'')

  above_event_cached_lem :
      (above : String → Cache → List String × Cache) (k : String) (found : Option Event)
      → get k by_id ≡ found
      → ((event : Event) (p : String) (c : Cache)
          → get k by_id ≡ some event
          → contains event.parents p ≡ true
          → CacheIsSound c
          → Answers (above p c) p)
      → (cache : Cache) → CacheIsSound cache
      → Answers (above_event_cached above k found cache) k
  unfolding contains
  above_event_cached_lem above k none unknown step cache sound =
      remember-Answers k [] cache (λ t. (λ h. cc, λ a. absurd (no_ancestor t a)), sound)
    where
      no_ancestor : (t : String) → ¬ Ancestor by_id t k
      no_ancestor t (Ancestor.parent event e m) = cc
      no_ancestor t (Ancestor.further event p e m up) = cc
  above_event_cached_lem above k (some event) known step cache sound =
      let (found, sound') =
        gather_cached_lem above event.parents (λ p c. step event p c known) cache sound in
      remember-Answers k (gather_cached above event.parents cache).0
        (gather_cached above event.parents cache).1
        (λ t. (λ h. to_ancestor t ((found t).0 h), λ a. (found t).1 (to_above t a)), sound')
    where
      to_ancestor : (t : String) → Above event.parents t → Ancestor by_id t k
      to_ancestor t (inl m) = Ancestor.parent event known m
      to_ancestor t (inr (p, m, a)) = Ancestor.further event p known m a

      same : (event' : Event) → get k by_id ≡ some event' → event ≡ event'
      same event' e = cc

      to_above : (t : String) → Ancestor by_id t k → Above event.parents t
      to_above t (Ancestor.parent event' e m) = inl (rw (same event' e) m)
      to_above t (Ancestor.further event' p e m up) = inr (p, rw (same event' e) m, up)

module _ (by_id : Events) (depth : String → ℕ) (ranked : IsRanked by_id depth) where
  cached_exact :
      (fuel : ℕ) (k : String) (cache : Cache)
      → ((event : Event) → get k by_id ≡ some event → depth k < fuel)
      → CacheIsSound by_id cache
      → Lists by_id (ancestor_ids_cached fuel by_id k cache).0 k
        × CacheIsSound by_id (ancestor_ids_cached fuel by_id k cache).1
  unfolding ancestor_ids_cached contains
  cached_exact zero k cache h sound = (
    λ t. (
      λ m. cc,
      λ a. let (event, e) = observer_known by_id t k a in absurd (omega (arith, h event e)),
    ),
    sound,
  )
  cached_exact (suc fuel) k cache h sound = hit_or_lem _ (get k cache) refl (
      above_event_cached_lem by_id (ancestor_ids_cached fuel by_id) k (get k by_id) refl
        (λ event p c e m s.
          cached_exact fuel p c
            (λ above e'. omega (arith, h event e, ranked k p event above e e' m)) s)
        cache sound)
    where
      hit_or_lem :
          (miss : List String × Cache) (hit : Option (List String))
          → get k cache ≡ hit
          → Lists by_id miss.0 k × CacheIsSound by_id miss.1
          → Lists by_id (hit_or hit cache miss).0 k × CacheIsSound by_id (hit_or hit cache miss).1
      hit_or_lem miss (some seen) e m = (sound k seen e, sound)
      hit_or_lem miss none e m = m

  -- From a cache whose entries are right, `_ancestor_ids` returns exactly the ancestors and leaves
  -- a cache whose entries are right, where parent links between known events have no cycle and the
  -- fuel is above the depth of the event.
  pub ancestor_ids_cached_exact :
      (fuel : ℕ) (k : String) (cache : Cache)
      → depth k < fuel
      → CacheIsSound by_id cache
      → Lists by_id (ancestor_ids_cached fuel by_id k cache).0 k
        × CacheIsSound by_id (ancestor_ids_cached fuel by_id k cache).1
  ancestor_ids_cached_exact fuel k cache h sound = cached_exact fuel k cache (λ event e. h) sound
