-- ===== src/VectorClock/Causality.antt =====
-- `relation` decides the pointwise order of clocks, and an event's clock follows its parents'.
use hashgraph.Prelude.{
  ◌+◌, ◌≤◌, max, ◌≡◌, ◌↔◌, refl, String, Bool, true, false, ◌||◌, List, [], ◌∷◌, arith, string_eq,
  ltb, if◌then◌else◌, contains, contains-append, any, keep, not, Bool-cases,
}
use hashgraph.Prelude.{inl, inr}
use hashgraph.Dict.{keys}
use hashgraph.VectorClock.{
  Clock, VectorRelation, before, after, equal, concurrent, counter, key_union, dominates, verdict,
  relation, is_before, happened_before, merge, increment,
}
use hashgraph.VectorClock.Laws.{IsDict, counter_absent, counter-merge, counter-increment}

-- Every node's counter is at most the other clock's.
abbrev pub LeClock : Clock → Clock → Type 0
LeClock c d = (k : String) → counter c k ≤ counter d k

-- The left clock is ahead at a key of the list.
abbrev ahead : Clock → Clock → List String → Bool
ahead c d ks = any (λ k. ltb (counter d k) (counter c k)) ks

dominates-eq :
    (c d : Clock) (ks : List String) (a b : Bool)
    → dominates c d ks a b ≡ (a || ahead c d ks, b || ahead d c ks)
unfolding dominates any
dominates-eq c d [] a b = ground arith
dominates-eq c d (k ∷ ks) a b = ground (
  arith,
  dominates-eq c d ks
      (if ltb (counter c k) (counter d k)
        then a
        else if ltb (counter d k) (counter c k)
        then true
        else a)
      (if ltb (counter c k) (counter d k) then true else b),
)

contains-keep-not :
    (xs ys : List String) (k : String)
    → contains ys k ≡ true
    → (contains xs k || contains (keep (λ y. not (contains xs y)) ys) k) ≡ true
unfolding contains keep
contains-keep-not xs [] k h = cc
contains-keep-not xs (y ∷ ys) k h = ground (arith, contains-keep-not xs ys k, string_eq.beq_iff y k)

contains-key_union_left :
    (c d : Clock) (k : String) → contains (key_union c d) k ≡ false → contains (keys c) k ≡ false
unfolding key_union
contains-key_union_left c d k h =
    ground (arith, contains-append (keys c) (keep (λ y. not (contains (keys c) y)) (keys d)) k)

contains-key_union_right :
    (c d : Clock) (k : String) → contains (key_union c d) k ≡ false → contains (keys d) k ≡ false
unfolding key_union
contains-key_union_right c d k h = ground (
  arith,
  contains-append (keys c) (keep (λ y. not (contains (keys c) y)) (keys d)) k,
  contains-keep-not (keys c) (keys d) k,
)

not_ahead : (c d : Clock) (ks : List String) → LeClock c d → ahead c d ks ≡ false
unfolding any
not_ahead c d [] h = refl
not_ahead c d (k ∷ ks) h = ground (arith, h k, not_ahead c d ks h)

not_ahead_at :
    (c d : Clock) (ks : List String) (k : String)
    → ahead c d ks ≡ false
    → contains ks k ≡ true
    → counter c k ≤ counter d k
unfolding any contains
not_ahead_at c d [] k h m = cc
not_ahead_at c d (j ∷ ks) k h m = elim (Bool-cases (string_eq.beq j k)) [
  | inl e ↦ let same = (string_eq.beq_iff j k).0 e in rw (← same) (ground arith)
  | inr e ↦ not_ahead_at c d ks k (ground arith) (ground arith)
]

ahead_left_iff : (c d : Clock) → (ahead c d (key_union c d) ≡ false) ↔ LeClock c d
ahead_left_iff c d = (
  λ h k. elim (Bool-cases (contains (key_union c d) k)) [
    | inl m ↦ not_ahead_at c d (key_union c d) k h m
    | inr m ↦ omega (arith, counter_absent c k (contains-key_union_left c d k m))
  ],
  not_ahead c d (key_union c d),
)

ahead_right_iff : (c d : Clock) → (ahead d c (key_union c d) ≡ false) ↔ LeClock d c
ahead_right_iff c d = (
  λ h k. elim (Bool-cases (contains (key_union c d) k)) [
    | inl m ↦ not_ahead_at d c (key_union c d) k h m
    | inr m ↦ omega (arith, counter_absent d k (contains-key_union_right c d k m))
  ],
  not_ahead d c (key_union c d),
)

abbrev pub Verdict : VectorRelation → Type 0 → Type 0 → Type 0
Verdict before le ge = le × (¬ ge)
Verdict after le ge = (¬ le) × ge
Verdict equal le ge = le × ge
Verdict concurrent le ge = (¬ le) × (¬ ge)

-- The answer of `relation` says which of the two pointwise orders between the clocks hold: `before`
-- just the first, `after` just the second, `equal` both and `concurrent` neither.
pub relation-Verdict : (c d : Clock) → Verdict (relation c d) (LeClock c d) (LeClock d c)
unfolding relation verdict
relation-Verdict c d = rw (dominates-eq c d (key_union c d) false false) (
    decide (ahead c d (key_union c d)) (ahead d c (key_union c d)) (ahead_left_iff c d)
      (ahead_right_iff c d))
  where
    decide :
        (a b : Bool) {le ge : Type 0}
        → (a ≡ false) ↔ le
        → (b ≡ false) ↔ ge
        → Verdict (verdict (false || a, false || b)) le ge
    decide true true p q = (λ h. cc (p.1 h), λ h. cc (q.1 h))
    decide true false p q = (λ h. cc (p.1 h), q.0 refl)
    decide false true p q = (p.0 refl, λ h. cc (q.1 h))
    decide false false p q = (p.0 refl, q.0 refl)

pub before_iff : (c d : Clock) → (happened_before c d ≡ true) ↔ (LeClock c d × (¬ LeClock d c))
unfolding happened_before is_before
before_iff c d = decide (relation c d) (relation-Verdict c d)
  where
    decide :
        (r : VectorRelation) {le ge : Type 0}
        → Verdict r le ge
        → (is_before r ≡ true) ↔ (le × (¬ ge))
    decide before v = (λ h. v, λ h. refl)
    decide after v = (λ h. cc, λ h. absurd (v.0 h.0))
    decide concurrent v = (λ h. cc, λ h. absurd (v.0 h.0))
    decide equal v = (λ h. cc, λ h. absurd (h.1 v.1))

irreflexive : (c : Clock) → happened_before c c ≡ false
irreflexive c = elim (Bool-cases (happened_before c c)) [
  | inl h ↦ let (le, ge) = (before_iff c c).0 h in absurd (ge le)
  | inr h ↦ h
]

transitive :
    (c d e : Clock)
    → happened_before c d ≡ true
    → happened_before d e ≡ true
    → happened_before c e ≡ true
transitive c d e h k =
    let (le, ge) = (before_iff c d).0 h in
    let (le', ge') = (before_iff d e).0 k in
    (before_iff c e).1
      (λ j. omega (arith, le j, le' j), λ all. ge (λ j. omega (arith, le' j, all j)))

-- `happened_before` is a strict order: it is transitive, and no two clocks stand both ways, so a
-- chain of clocks never comes back.
pub happened_before_strict :
    (c d e : Clock)
    → happened_before c d ≡ true
    → happened_before d e ≡ true
    → (happened_before c e ≡ true) × (happened_before e c ≡ false)
happened_before_strict c d e h k =
    let ce = transitive c d e h k in
    (
      ce,
      elim (Bool-cases (happened_before e c)) [
        | inl back ↦ let loop = transitive c e c ce back in ground (arith, irreflexive c, loop)
        | inr free ↦ free
      ],
    )

-- The clock of a new event, which merges a parent's clock into the node's and counts the node up,
-- comes strictly after the parent's clock and after the node's own.
pub increment-merge-after :
    (own parent : Clock) (node_id : String)
    → IsDict parent
    → (happened_before parent (increment (merge own parent) node_id) ≡ true)
      × (happened_before own (increment (merge own parent) node_id) ≡ true)
increment-merge-after own parent node_id dict = (
  (before_iff parent new).1 (λ k. below_parent k, λ back. omega (arith, at_node, back node_id)),
  (before_iff own new).1 (λ k. below_own k, λ back. omega (arith, at_node, back node_id)),
)
  where
    new : Clock
    new = increment (merge own parent) node_id

    at_node : counter new node_id ≡ max (counter own node_id) (counter parent node_id) + 1
    at_node = ground (
      arith,
      counter-increment (merge own parent) node_id node_id,
      counter-merge own parent node_id dict,
      string_eq.beq_iff node_id node_id,
    )

    below_parent : (k : String) → counter parent k ≤ counter new k
    below_parent k = ground (
      arith,
      counter-increment (merge own parent) node_id k,
      counter-merge own parent k dict,
      counter-merge own parent node_id dict,
      string_eq.beq_iff node_id k,
    )

    below_own : (k : String) → counter own k ≤ counter new k
    below_own k = ground (
      arith,
      counter-increment (merge own parent) node_id k,
      counter-merge own parent k dict,
      counter-merge own parent node_id dict,
      string_eq.beq_iff node_id k,
    )
