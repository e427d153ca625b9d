-- ===== src/Consensus/Ancestry/Exact.antt =====
-- `ancestor_ids` finds exactly the events that parent links reach.
use hashgraph.Prelude.{
  ℕ, zero, suc, ◌<◌, ◌≡◌, ◌↔◌, ◌⊎◌, inl, inr, refl, String, true, Option, none, some, List, [], ◌∷◌,
  arith, string_eq, ◌==◌, contains, contains-append, length, Bool-cases, count_if, count_if-le,
  count_if_mono, ltb, ap,
}
use hashgraph.Dict.{get}
use hashgraph.Models.{Event}
use hashgraph.Consensus.Ancestry.{Events, gather, above_event, ancestor_ids, can_see}

-- `target` is above `observer` along parent links between known events.
pub data Ancestor (by_id : Events) (target : String) : String → Type 0 where
  parent :
      {observer : String} (event : Event)
      → get observer by_id ≡ some event
      → contains event.parents target ≡ true
      → Ancestor by_id target observer
  further :
      {observer : String} (event : Event) (link : String)
      → get observer by_id ≡ some event
      → contains event.parents link ≡ true
      → Ancestor by_id target link
      → Ancestor by_id target observer

-- A depth for each id: a known event lies strictly deeper than its known parents. This says that
-- parent links between known events have no cycle; a parent may be missing.
abbrev pub IsRanked : Events → (String → ℕ) → Type 0
IsRanked by_id depth =
    (k p : String) (event above : Event)
    → get k by_id ≡ some event
    → get p by_id ≡ some above
    → contains event.parents p ≡ true
    → depth p < depth k

gather-cases :
    (above : String → List String) (ps : List String) (t : String)
    → contains (gather above ps) t ≡ true
    → (contains ps t ≡ true)
      ⊎ ((p : String) × (contains ps p ≡ true) × (contains (above p) t ≡ true))
unfolding contains
gather-cases above [] t h = cc
gather-cases above (p ∷ ps) t h = elim (Bool-cases (string_eq.beq p t)) [
  | inl e ↦ inl (ground arith)
  | inr e ↦ elim (Bool-cases (contains (above p) t)) [
    | inl m ↦ inr (p, ground (arith, string_eq.beq_iff p p), m)
    | inr m ↦
        elim (gather-cases above ps t
          (ground (arith, contains-append (above p) (gather above ps) t))) [
            | inl here ↦ inl (ground arith)
            | inr (q, there, up) ↦ inr (q, ground arith, up)
          ]
  ]
]

gather-parent :
    (above : String → List String) (ps : List String) (t : String)
    → contains ps t ≡ true
    → contains (gather above ps) t ≡ true
unfolding contains
gather-parent above [] t h = cc
gather-parent above (p ∷ ps) t h =
    ground (arith, gather-parent above ps t, contains-append (above p) (gather above ps) t)

gather-above :
    (above : String → List String) (ps : List String) (p t : String)
    → contains ps p ≡ true
    → contains (above p) t ≡ true
    → contains (gather above ps) t ≡ true
unfolding contains
gather-above above [] p t h k = cc
gather-above above (q ∷ ps) p t h k = ground (
  arith,
  gather-above above ps p t,
  contains-append (above q) (gather above ps) t,
  string_eq.beq_iff q p,
)

above_event_sound :
    (by_id : Events) (o t : String) (above : String → List String)
    → ((p : String) → contains (above p) t ≡ true → Ancestor by_id t p)
    → (found : Option Event) → get o by_id ≡ found
    → contains (above_event above found) t ≡ true
    → Ancestor by_id t o
unfolding contains
above_event_sound by_id o t above up none e h = cc
above_event_sound by_id o t above up (some event) e h =
    elim (gather-cases above event.parents t h) [
      | inl here ↦ Ancestor.parent event e here
      | inr (p, there, more) ↦ Ancestor.further event p e there (up p more)
    ]

-- What is found is an ancestor, with any fuel.
pub ancestor_ids_sound :
    (fuel : ℕ) (by_id : Events) (o t : String)
    → contains (ancestor_ids fuel by_id o) t ≡ true
    → Ancestor by_id t o
unfolding ancestor_ids contains
ancestor_ids_sound zero by_id o t h = cc
ancestor_ids_sound (suc fuel) by_id o t h =
    above_event_sound by_id o t (ancestor_ids fuel by_id) (λ p. ancestor_ids_sound fuel by_id p t)
      (get o by_id) refl h

-- Only a known event has ancestors.
pub observer_known :
    (by_id : Events) (t o : String)
    → Ancestor by_id t o
    → (event : Event) × (get o by_id ≡ some event)
observer_known by_id t o (Ancestor.parent event e m) = (event, e)
observer_known by_id t o (Ancestor.further event p e m up) = (event, e)

-- With fuel above the depth nothing is missed.
pub ancestor_ids_complete :
    (by_id : Events) (depth : String → ℕ)
    → IsRanked by_id depth
    → (fuel : ℕ) (t o : String) → depth o < fuel
    → Ancestor by_id t o
    → contains (ancestor_ids fuel by_id o) t ≡ true
unfolding ancestor_ids
ancestor_ids_complete by_id depth ranked zero t o h a = absurd (omega arith)
ancestor_ids_complete by_id depth ranked (suc fuel) t o h (Ancestor.parent event e m) =
    rw (e, above_event) (gather-parent (ancestor_ids fuel by_id) event.parents t m)
ancestor_ids_complete by_id depth ranked (suc fuel) t o h (Ancestor.further event p e m up) =
    let (above, known) = observer_known by_id t p up in
    rw (e, above_event)
      (gather-above (ancestor_ids fuel by_id) event.parents p t m (
        ancestor_ids_complete by_id depth ranked fuel t p
          (omega (arith, ranked o p event above e known m)) up))

-- The number of known events that lie higher: a depth below the number of known events.
unfoldable place : (String → ℕ) → Events → String → ℕ
place depth by_id k = count_if (λ e. ltb (depth e.0) (depth k)) by_id

place-below :
    (depth : String → ℕ) (by_id : Events) (k : String) (event : Event)
    → get k by_id ≡ some event
    → place depth by_id k < length by_id
unfolding place count_if get
place-below depth [] k event h = cc
place-below depth ((j, e) ∷ by_id) k event h = elim (Bool-cases (j == k)) [
  | inl same ↦
      let level : depth j ≡ depth k = ap depth ((string_eq.beq_iff j k).0 same) in
      ground (arith, level, count_if-le (λ x. ltb (depth x.0) (depth k)) by_id)
  | inr other ↦ ground (arith, place-below depth by_id k event (rw other at h))
]

place-parents_first :
    (depth : String → ℕ) (by_id : Events) (k p : String) (above : Event)
    → get p by_id ≡ some above
    → depth p < depth k
    → place depth by_id p < place depth by_id k
unfolding place count_if get
place-parents_first depth [] k p above h l = cc
place-parents_first depth ((j, e) ∷ by_id) k p above h l = elim (Bool-cases (j == p)) [
  | inl same ↦
      let level : depth j ≡ depth p = ap depth ((string_eq.beq_iff j p).0 same) in
      let rest =
        count_if_mono (λ x. ltb (depth x.0) (depth p)) (λ x. ltb (depth x.0) (depth k)) by_id
          (λ x m. ground (arith, m, l)) in
      ground (arith, level, rest)
  | inr other ↦ ground (arith, l, place-parents_first depth by_id k p above (rw other at h) l)
]

-- Where parent links have no cycle, an observer sees exactly itself and its ancestors.
pub can_see_iff :
    (by_id : Events) (depth : String → ℕ) (o t : String)
    → IsRanked by_id depth
    → (can_see by_id o t ≡ true) ↔ ((o ≡ t) ⊎ Ancestor by_id t o)
unfolding can_see
can_see_iff by_id depth o t ranked = (
  λ seen. elim (Bool-cases (string_eq.beq o t)) [
    | inl e ↦ inl ((string_eq.beq_iff o t).0 e)
    | inr e ↦ inr (ancestor_ids_sound (length by_id) by_id o t (ground arith))
  ],
  λ way. elim way [
    | inl e ↦ ground (arith, string_eq.beq_iff o t)
    | inr a ↦
        let (event, known) = observer_known by_id t o a in
        let found =
          ancestor_ids_complete by_id (place depth by_id)
            (λ k p event above e e' m.
              place-parents_first depth by_id k p above e' (ranked k p event above e e' m))
            (length by_id) t o (place-below depth by_id o event known) a in
        ground (arith, found)
  ],
)
