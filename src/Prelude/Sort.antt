-- ===== src/Prelude/Sort.antt =====
-- Python's `sorted(xs, key=f)` and `xs.sort()`: stable, by insertion. The result holds the same
-- elements, is in order, and does not depend on the order of the input where no two keys agree.
use mathlib.Core.Path.{◌≡◌, refl, sym, ap₂, subst, subst₂, ◌∙◌}
use mathlib.Core.Logic.{◌≢◌, inl, inr}
use mathlib.Core.Bool.{true}
use mathlib.Core.List.Perm
use mathlib.Core.List.{List, [], ◌∷◌, Perm, Permᴰ}
use native.Mathlib.Omega.{arith}
use hashgraph.Prelude.Tests.{if◌then◌else◌, Bool-cases}
use hashgraph.Prelude.Order.{Ord}

module _ {ℓ κ} {A : Type ℓ} {B : Type κ} ⦃o : Ord B⦄ (f : A → B) where
  unfoldable pub insert_on : A → List A → List A
  insert_on x [] = x ∷ []
  insert_on x (y ∷ ys) =
      let rest = insert_on x ys in if o.le (f x) (f y) then x ∷ (y ∷ ys) else y ∷ rest

  unfoldable pub sort_on : List A → List A
  unfolding insert_on
  sort_on [] = []
  sort_on (x ∷ xs) = insert_on x (sort_on xs)

  -- Every key is at least `b`.
  abbrev pub AllAbove : B → List A → Type κ
  AllAbove b [] = Unit
  AllAbove b (x ∷ xs) = (o.le b (f x) ≡ true) × AllAbove b xs

  abbrev pub IsSortedOn : List A → Type κ
  IsSortedOn [] = Unit
  IsSortedOn (x ∷ xs) = AllAbove (f x) xs × IsSortedOn xs

  -- No key agrees with `b`.
  abbrev pub AllApart : B → List A → Type κ
  AllApart b [] = Unit
  AllApart b (x ∷ xs) = (b ≢ f x) × AllApart b xs

  abbrev pub KeysApart : List A → Type κ
  KeysApart [] = Unit
  KeysApart (x ∷ xs) = AllApart (f x) xs × KeysApart xs

module _ {ℓ κ} {A : Type ℓ} {B : Type κ} ⦃o : Ord B⦄ (f : A → B) where
  insert_on-perm : (x : A) (ys : List A) → Perm (insert_on f x ys) (x ∷ ys)
  unfolding insert_on
  insert_on-perm x [] = Perm.rfl
  insert_on-perm x (y ∷ ys) = elim (Bool-cases (o.le (f x) (f y))) [
    | inl h ↦ rw h Perm.rfl
    | inr h ↦ rw h (Perm.trans (Perm.cons y (insert_on-perm x ys)) (Perm.swap x y ys))
  ]

  pub sort_on-perm : (xs : List A) → Perm (sort_on f xs) xs
  unfolding sort_on
  sort_on-perm [] = Perm.rfl
  sort_on-perm (x ∷ xs) =
      Perm.trans (insert_on-perm x (sort_on f xs)) (Perm.cons x (sort_on-perm xs))

  AllAbove-trans : (b c : B) (xs : List A) → o.le b c ≡ true → AllAbove f c xs → AllAbove f b xs
  AllAbove-trans b c [] h a = tt
  AllAbove-trans b c (x ∷ xs) h a = (o.trans b c (f x) h a.0, AllAbove-trans b c xs h a.1)

  AllAbove-insert_on :
      (b : B) (x : A) (ys : List A)
      → o.le b (f x) ≡ true
      → AllAbove f b ys
      → AllAbove f b (insert_on f x ys)
  unfolding insert_on
  AllAbove-insert_on b x [] h a = (h, tt)
  AllAbove-insert_on b x (y ∷ ys) h a = elim (Bool-cases (o.le (f x) (f y))) [
    | inl e ↦ rw e (h, a)
    | inr e ↦ rw e (a.0, AllAbove-insert_on b x ys h a.1)
  ]

  insert_on-IsSortedOn : (x : A) (ys : List A) → IsSortedOn f ys → IsSortedOn f (insert_on f x ys)
  unfolding insert_on
  insert_on-IsSortedOn x [] s = (tt, tt)
  insert_on-IsSortedOn x (y ∷ ys) s = elim (Bool-cases (o.le (f x) (f y))) [
    | inl e ↦ rw e ((e, AllAbove-trans (f x) (f y) ys e s.0), s)
    | inr e ↦
        rw e
          (AllAbove-insert_on (f y) x ys (o.total (f x) (f y) e) s.0, insert_on-IsSortedOn x ys s.1)
  ]

  pub sort_on-IsSortedOn : (xs : List A) → IsSortedOn f (sort_on f xs)
  unfolding sort_on
  sort_on-IsSortedOn [] = tt
  sort_on-IsSortedOn (x ∷ xs) = insert_on-IsSortedOn x (sort_on f xs) (sort_on-IsSortedOn xs)

  -- Two elements with different keys go in in either order.
  insert_on_comm :
      (x y : A) (l : List A)
      → f x ≢ f y
      → insert_on f x (insert_on f y l) ≡ insert_on f y (insert_on f x l)
  unfolding insert_on
  insert_on_comm x y [] h =
      ground (arith, o.total (f x) (f y), o.total (f y) (f x), o.antisym (f x) (f y))
  insert_on_comm x y (z ∷ l) h = ground (
    arith,
    insert_on_comm x y l h,
    o.total (f x) (f y),
    o.total (f y) (f x),
    o.antisym (f x) (f y),
    o.total (f x) (f z),
    o.total (f y) (f z),
    o.trans (f x) (f y) (f z),
    o.trans (f y) (f x) (f z),
  )

  AllApart-Permᴰ : (b : B) {xs ys : List A} → Permᴰ xs ys → AllApart f b xs → AllApart f b ys
  AllApart-Permᴰ b Permᴰ.nil h = h
  AllApart-Permᴰ b (Permᴰ.cons e p) h = (subst (λ z. b ≢ f z) e h.0, AllApart-Permᴰ b p h.1)
  AllApart-Permᴰ b (Permᴰ.swap e e') h =
      (subst (λ z. b ≢ f z) e' h.1.0, (subst (λ z. b ≢ f z) e h.0, h.1.1))
  AllApart-Permᴰ b (Permᴰ.trans p q) h = AllApart-Permᴰ b q (AllApart-Permᴰ b p h)

  KeysApart-Permᴰ : {xs ys : List A} → Permᴰ xs ys → KeysApart f xs → KeysApart f ys
  KeysApart-Permᴰ Permᴰ.nil h = h
  KeysApart-Permᴰ (Permᴰ.cons {l₂ = l₂} e p) h =
      (subst (λ z. AllApart f (f z) l₂) e (AllApart-Permᴰ _ p h.0), KeysApart-Permᴰ p h.1)
  KeysApart-Permᴰ (Permᴰ.swap {l = l} e e') h =
      subst₂ (λ u v. KeysApart f (u ∷ v ∷ l)) e' e ((λ q. h.0.0 (sym q), h.1.0), (h.0.1, h.1.1))
  KeysApart-Permᴰ (Permᴰ.trans p q) h = KeysApart-Permᴰ q (KeysApart-Permᴰ p h)

  -- Where no two keys agree, the sorted list depends on the elements alone.
  pub sort_on-Permᴰ : {xs ys : List A} → Permᴰ xs ys → KeysApart f xs → sort_on f xs ≡ sort_on f ys
  unfolding sort_on
  sort_on-Permᴰ Permᴰ.nil h = refl
  sort_on-Permᴰ (Permᴰ.cons e p) h = ap₂ (insert_on f) e (sort_on-Permᴰ p h.1)
  sort_on-Permᴰ (Permᴰ.swap e e') h = rw (← e, ← e') (insert_on_comm _ _ _ h.0.0)
  sort_on-Permᴰ (Permᴰ.trans p q) h = sort_on-Permᴰ p h ∙ sort_on-Permᴰ q (KeysApart-Permᴰ p h)

  insert_on_least : (x : A) (ys : List A) → AllAbove f (f x) ys → insert_on f x ys ≡ x ∷ ys
  unfolding insert_on
  insert_on_least x [] h = refl
  insert_on_least x (y ∷ ys) h = rw (h.0)

  -- What is in order stays as it is.
  pub sort_on_sorted : (xs : List A) → IsSortedOn f xs → sort_on f xs ≡ xs
  unfolding sort_on
  sort_on_sorted [] h = refl
  sort_on_sorted (x ∷ xs) h = rw (sort_on_sorted xs h.1) (insert_on_least x xs h.0)

module _ {ℓ κ} {A : Type ℓ} (P : A → Type κ) where
  abbrev pub All : List A → Type κ
  All [] = Unit
  All (x ∷ xs) = P x × All xs

module _ {ℓ κ μ} {A : Type ℓ} {B : Type κ} ⦃o : Ord B⦄ (f : A → B) (P : A → Type μ) where
  All-insert_on : (x : A) (ys : List A) → P x → All P ys → All P (insert_on f x ys)
  unfolding insert_on
  All-insert_on x [] h a = (h, tt)
  All-insert_on x (y ∷ ys) h a = elim (Bool-cases (o.le (f x) (f y))) [
    | inl e ↦ rw e (h, a)
    | inr e ↦ rw e (a.0, All-insert_on x ys h a.1)
  ]

  -- What holds of every element still does.
  pub All-sort_on : (xs : List A) → All P xs → All P (sort_on f xs)
  unfolding sort_on
  All-sort_on [] a = tt
  All-sort_on (x ∷ xs) a = All-insert_on x (sort_on f xs) a.0 (All-sort_on xs a.1)
