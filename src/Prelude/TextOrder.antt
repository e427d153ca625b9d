-- ===== src/Prelude/TextOrder.antt =====
-- Python compares texts by code points, as the native comparison does, and this is a total order.
use Prim.Native.Nat.{ℕ, compare as compare_ℕ, Ordering}
use Prim.Native.Char.{Char, code}
use Prim.Native.String.compare
use Prim.Native.String.{String, [], ◌∷◌, compare, then}
use mathlib.Core.Path.{◌≡◌, refl, ap₂}
use mathlib.Core.Bool.{Bool, true, false}
use native.Mathlib.Omega.{arith}
use text.Mathlib.Text.{is_le}
use text.Mathlib.TextEquality.{codes_equal}

abbrev pub text_le : String → String → Bool
text_le s t = is_le (compare s t)

step_le : Ordering → Bool → Bool
step_le Ordering.lt b = true
step_le Ordering.eq b = b
step_le Ordering.gt b = false

text_le-cons :
    (c d : Char) (s t : String)
    → text_le (c ∷ s) (d ∷ t) ≡ step_le (compare_ℕ (code c) (code d)) (text_le s t)
unfolding step_le
text_le-cons c d s t = rw (compare.cons-cons c d s t) (go (compare_ℕ (code c) (code d)))
  where
    go : (o : Ordering) → is_le (then o (compare s t)) ≡ step_le o (text_le s t)
    go Ordering.lt = refl
    go Ordering.eq = refl
    go Ordering.gt = refl

nil_text_le : (t : String) → text_le [] t ≡ true
nil_text_le [] = refl
nil_text_le (c ∷ t) = rw (compare.nil-cons c t)

cons_text_le-nil : (c : Char) (s : String) → text_le (c ∷ s) [] ≡ false
cons_text_le-nil c s = rw (compare.cons-nil c s)

step_total :
    (m n : ℕ) (b b' : Bool)
    → step_le (compare_ℕ m n) b ≡ false
    → (b ≡ false → b' ≡ true)
    → step_le (compare_ℕ n m) b' ≡ true
unfolding step_le
step_total m n b b' h f = ground arith

step_trans :
    (m n k : ℕ) (b b' b'' : Bool)
    → step_le (compare_ℕ m n) b ≡ true
    → step_le (compare_ℕ n k) b' ≡ true
    → (b ≡ true → b' ≡ true → b'' ≡ true)
    → step_le (compare_ℕ m k) b'' ≡ true
unfolding step_le
step_trans m n k b b' b'' h h' f = ground arith

step_antisym :
    (m n : ℕ) (b b' : Bool)
    → step_le (compare_ℕ m n) b ≡ true
    → step_le (compare_ℕ n m) b' ≡ true
    → (compare_ℕ m n ≡ Ordering.eq) × (b ≡ true) × (b' ≡ true)
unfolding step_le
step_antisym m n b b' h h' = ground arith

pub text_le_total : (a b : String) → text_le a b ≡ false → text_le b a ≡ true
text_le_total [] t h = cc (nil_text_le t)
text_le_total (c ∷ s) [] h = nil_text_le (c ∷ s)
text_le_total (c ∷ s) (d ∷ t) h =
    rw text_le-cons (step_total (code c) (code d) _ _ (rw text_le-cons at h) (text_le_total s t))

pub text_le_trans : (a b c : String) → text_le a b ≡ true → text_le b c ≡ true → text_le a c ≡ true
text_le_trans [] b z h k = nil_text_le z
text_le_trans (c ∷ s) [] z h k = cc (cons_text_le-nil c s)
text_le_trans (c ∷ s) (d ∷ t) [] h k = cc (cons_text_le-nil d t)
text_le_trans (c ∷ s) (d ∷ t) (e ∷ u) h k = rw text_le-cons (
    step_trans (code c) (code d) (code e) _ _ _ (rw text_le-cons at h) (rw text_le-cons at k)
      (text_le_trans s t u))

pub text_le_antisym : (a b : String) → text_le a b ≡ true → text_le b a ≡ true → a ≡ b
text_le_antisym [] [] h k = refl
text_le_antisym [] (d ∷ t) h k = cc (cons_text_le-nil d t)
text_le_antisym (c ∷ s) [] h k = cc (cons_text_le-nil c s)
text_le_antisym (c ∷ s) (d ∷ t) h k =
    let (same, front, back) =
      step_antisym (code c) (code d) _ _ (rw text_le-cons at h) (rw text_le-cons at k) in
    ap₂ ◌∷◌ (codes_equal c d same) (text_le_antisym s t front back)
