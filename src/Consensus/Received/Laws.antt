-- ===== src/Consensus/Received/Laws.antt =====
-- The round received is the least round that receives the event.
use hashgraph.Prelude.{
  ℕ, ◌≤◌, ◌≡◌, refl, sym, ◌∙◌, String, Bool, true, false, Option, none, some, List, [], ◌∷◌,
  string_eq, nat_eq, nat_ord, contains, sort_on, insert_on, AllAbove, IsSortedOn,
  sort_on-IsSortedOn, arith, ◌||◌, Bool-cases, inl, inr,
}
use hashgraph.Dict.{keys}
use hashgraph.Consensus.Rounds.{WitnessesByRound}
use hashgraph.Consensus.Received.{FameByRound, receives, first_receiving, round_received}

contains-insert_on :
    (x a : ℕ) (ys : List ℕ)
    → contains (insert_on (λ r. r) x ys) a ≡ (nat_eq.beq x a || contains ys a)
unfolding contains insert_on
contains-insert_on x a [] = refl
contains-insert_on x a (y ∷ ys) = ground (arith, contains-insert_on x a ys)

contains-sort_on : (a : ℕ) (xs : List ℕ) → contains (sort_on (λ r. r) xs) a ≡ contains xs a
unfolding contains sort_on
contains-sort_on a [] = refl
contains-sort_on a (x ∷ xs) =
    ground (arith, contains-insert_on x a (sort_on (λ r. r) xs), contains-sort_on a xs)

-- What it means for `found` to be the least of the rounds that pass the test.
abbrev pub IsLeast : (ℕ → Bool) → List ℕ → Option ℕ → Type 0
IsLeast test rounds none = (r : ℕ) → contains rounds r ≡ true → test r ≡ false
IsLeast test rounds (some found) =
    (contains rounds found ≡ true)
    × (test found ≡ true)
    × ((r : ℕ) → contains rounds r ≡ true → test r ≡ true → found ≤ r)

least_above :
    (b r : ℕ) (rounds : List ℕ) → AllAbove (λ r. r) b rounds → contains rounds r ≡ true → b ≤ r
unfolding contains
least_above b r [] a h = cc
least_above b r (q ∷ rounds) a h = ground (arith, least_above b r rounds a.1, a.0)

IsLeast-later :
    (test : ℕ → Bool) (q : ℕ) (rounds : List ℕ) (found : Option ℕ)
    → IsLeast test rounds found
    → test q ≡ false
    → IsLeast test (q ∷ rounds) found
unfolding contains
IsLeast-later test q rounds none h failed = λ r m. elim (Bool-cases (nat_eq.beq q r)) [
  | inl same ↦ rw (← (nat_eq.beq_iff q r).0 same) failed
  | inr other ↦ h r (ground arith)
]
IsLeast-later test q rounds (some found) h failed = (
  ground (arith, h.0),
  h.1,
  λ r m k. elim (Bool-cases (nat_eq.beq q r)) [
    | inl same ↦
        let fails : test r ≡ false = rw (← (nat_eq.beq_iff q r).0 same) failed in cc (k, fails)
    | inr other ↦ h.2 r (ground arith) k
  ],
)

IsLeast-same_rounds :
    (test : ℕ → Bool) (xs ys : List ℕ) (found : Option ℕ)
    → ((r : ℕ) → contains xs r ≡ contains ys r)
    → IsLeast test xs found
    → IsLeast test ys found
IsLeast-same_rounds test xs ys none same h = λ r m. h r (same r ∙ m)
IsLeast-same_rounds test xs ys (some found) same h =
    (sym (same found) ∙ h.0, h.1, λ r m k. h.2 r (same r ∙ m) k)

module _ (can_see : String → String → Bool) (members : List String) (by_round : WitnessesByRound)
    (fame : FameByRound) (event_id : String) where
  abbrev test : ℕ → Bool
  test r = receives can_see members by_round fame event_id r

  first_receiving-IsLeast :
      (rounds : List ℕ)
      → IsSortedOn (λ r. r) rounds
      → IsLeast test rounds (first_receiving can_see members by_round fame event_id rounds)
  unfolding first_receiving contains
  first_receiving-IsLeast [] s = λ r h. cc
  first_receiving-IsLeast (q ∷ rounds) s = elim (Bool-cases (test q)) [
    | inl now ↦ rw now (
      ground (arith, nat_eq.beq_iff q q),
      now,
      λ r h k. ground (arith, least_above q r rounds s.0, nat_eq.beq_iff q r),
    )
    | inr not_yet ↦ rw not_yet (
        IsLeast-later test q rounds (first_receiving can_see members by_round fame event_id rounds)
          (first_receiving-IsLeast rounds s.1) not_yet)
  ]

  -- The round received is the least known round that receives the event, and there is none exactly
  -- where no known round does.
  pub round_received-IsLeast :
      IsLeast
        (λ r. receives can_see members by_round fame event_id r)
        (keys by_round)
        (round_received can_see members by_round fame event_id)
  unfolding round_received
  round_received-IsLeast =
      IsLeast-same_rounds test (sort_on (λ r. r) (keys by_round)) (keys by_round) _
        (λ r. contains-sort_on r (keys by_round))
        (first_receiving-IsLeast (sort_on (λ r. r) (keys by_round))
          (sort_on-IsSortedOn (λ r. r) (keys by_round)))
