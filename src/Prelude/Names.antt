-- ===== src/Prelude/Names.antt =====
-- Sorting keeps the names of the elements.
use mathlib.Core.Path.{◌≡◌, refl}
use mathlib.Core.Bool.{◌&&◌, ◌||◌, not}
use mathlib.Core.List.{List, [], ◌∷◌, map}
use native.Mathlib.Omega.{arith}
use hashgraph.Prelude.Tests.{Eq, ◌==◌}
use hashgraph.Prelude.Lists.{contains, nodup}
use hashgraph.Prelude.Order.{Ord}
use hashgraph.Prelude.Sort.{sort_on, insert_on}

module _ {ℓ κ μ} {A : Type ℓ} {B : Type κ} {C : Type μ} ⦃o : Ord B⦄ ⦃e : Eq C⦄ (f : A → B)
    (g : A → C) where
  contains-insert_on :
      (k : C) (x : A) (ys : List A)
      → contains (map g (insert_on f x ys)) k ≡ (g x == k || contains (map g ys) k)
  unfolding insert_on contains
  contains-insert_on k x [] = refl
  contains-insert_on k x (y ∷ ys) = ground (arith, contains-insert_on k x ys)

  pub contains-sort_on :
      (k : C) (xs : List A) → contains (map g (sort_on f xs)) k ≡ contains (map g xs) k
  unfolding sort_on contains
  contains-sort_on k [] = refl
  contains-sort_on k (x ∷ xs) =
      ground (arith, contains-insert_on k x (sort_on f xs), contains-sort_on k xs)

  nodup-insert_on :
      (x : A) (ys : List A)
      → nodup (map g (insert_on f x ys)) ≡ (not (contains (map g ys) (g x)) && nodup (map g ys))
  unfolding insert_on nodup contains
  nodup-insert_on x [] = refl
  nodup-insert_on x (y ∷ ys) = ground (
    arith,
    nodup-insert_on x ys,
    contains-insert_on (g y) x ys,
    e.beq_iff (g x) (g y),
    e.beq_iff (g y) (g x),
  )

  pub nodup-sort_on : (xs : List A) → nodup (map g (sort_on f xs)) ≡ nodup (map g xs)
  unfolding sort_on nodup
  nodup-sort_on [] = refl
  nodup-sort_on (x ∷ xs) =
      ground (arith, nodup-insert_on x (sort_on f xs), nodup-sort_on xs, contains-sort_on (g x) xs)
