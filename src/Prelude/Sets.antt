-- ===== src/Prelude/Sets.antt =====
-- Python sets as lists: only membership is read of them, and the number of distinct elements.
use Prim.Native.Nat.{suc, ◌≤◌}
use mathlib.Core.Path.{◌≡◌, refl}
use mathlib.Core.Bool.{Bool, true, false, ◌&&◌}
use mathlib.Core.List.{List, [], ◌∷◌}
use native.Mathlib.Omega.{arith}
use hashgraph.Prelude.Tests.{if◌then◌else◌, Eq, ◌==◌, beq_self}
use hashgraph.Prelude.Lists.{length, keep, contains, nodup, length-keep, count_if-le}

module _ {ℓ} {A : Type ℓ} ⦃e : Eq A⦄ where
  -- set(xs)
  unfoldable pub set_of : List A → List A
  set_of [] = []
  set_of (x ∷ xs) = let rest = set_of xs in if contains rest x then rest else x ∷ rest

  pub contains-set_of : (xs : List A) (a : A) → contains (set_of xs) a ≡ contains xs a
  unfolding set_of contains
  contains-set_of [] a = refl
  contains-set_of (x ∷ xs) a =
      ground (arith, contains-set_of xs a, contains-set_of xs x, e.beq_iff x a)

  pub nodup-set_of : (xs : List A) → nodup (set_of xs) ≡ true
  unfolding set_of nodup
  nodup-set_of [] = refl
  nodup-set_of (x ∷ xs) = ground (arith, nodup-set_of xs)

  pub contains-keep :
      (p : A → Bool) (xs : List A) (a : A) → contains (keep p xs) a ≡ (p a && contains xs a)
  unfolding contains keep
  contains-keep p [] a = ground arith
  contains-keep p (x ∷ xs) a = ground (arith, contains-keep p xs a, e.beq_iff x a)

  pub nodup-keep : (p : A → Bool) (xs : List A) → nodup xs ≡ true → nodup (keep p xs) ≡ true
  unfolding nodup keep
  nodup-keep p [] h = refl
  nodup-keep p (x ∷ xs) h = ground (arith, nodup-keep p xs, contains-keep p xs x)

  -- xs without every `a`
  without : A → List A → List A
  without a = keep (λ x. if x == a then false else true)

  length-without :
      (a : A) (ys : List A) → contains ys a ≡ true → suc (length (without a ys)) ≤ length ys
  unfolding without keep contains
  length-without a [] h = cc
  length-without a (y ∷ ys) h = ground (
    arith,
    length-without a ys,
    length-keep (λ x. if x == a then false else true) ys,
    count_if-le (λ x. if x == a then false else true) ys,
  )

  -- A set inside another is no larger.
  pub length_subset :
      (xs ys : List A)
      → nodup xs ≡ true
      → ((a : A) → contains xs a ≡ true → contains ys a ≡ true)
      → length xs ≤ length ys
  unfolding nodup contains without
  length_subset [] ys h sub = omega arith
  length_subset (x ∷ xs) ys h sub = omega (
    arith,
    length-without x ys (sub x (ground (arith, beq_self x))),
    length_subset xs (without x ys) (ground arith) (λ a m. inside a m),
  )
    where
      inside : (a : A) → contains xs a ≡ true → contains (without x ys) a ≡ true
      inside a m = ground (
        arith,
        contains-keep (λ y. if y == x then false else true) ys a,
        sub a,
        e.beq_iff a x,
        e.beq_iff x a,
      )
