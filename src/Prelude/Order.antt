-- ===== src/Prelude/Order.antt =====
-- Total orders as an interface, and the orders that the source's sort keys are built of.
use Prim.Native.Nat.{ℕ}
use Prim.Native.String.{String}
use mathlib.Core.Path.{◌≡◌, refl, ap}
use mathlib.Core.Bool.{Bool, true, false, not, ◌&&◌, ◌||◌}
use mathlib.Core.Option.{Option, none, some}
use native.Mathlib.Omega.{arith}
use hashgraph.Prelude.Tests.{leb}
use hashgraph.Prelude.TextOrder.{text_le, text_le_total, text_le_trans, text_le_antisym}

pub record Ord {ℓ} (A : Type ℓ) : Type ℓ where
  pub le : A → A → Bool
  pub total : (a b : A) → le a b ≡ false → le b a ≡ true
  pub trans : (a b c : A) → le a b ≡ true → le b c ≡ true → le a c ≡ true
  pub antisym : (a b : A) → le a b ≡ true → le b a ≡ true → a ≡ b

abbrev pub le_of {ℓ} : {A : Type ℓ} ⦃o : Ord A⦄ → A → A → Bool
le_of ⦃o⦄ = o.le

pub leb_total : (a b : ℕ) → leb a b ≡ false → leb b a ≡ true
leb_total a b h = ground arith

pub leb_trans : (a b c : ℕ) → leb a b ≡ true → leb b c ≡ true → leb a c ≡ true
leb_trans a b c h k = ground arith

pub leb_antisym : (a b : ℕ) → leb a b ≡ true → leb b a ≡ true → a ≡ b
leb_antisym a b h k = ground arith

instance abbrev pub nat_ord : Ord ℕ
nat_ord = record { le = leb; total = leb_total; trans = leb_trans; antisym = leb_antisym }

instance abbrev pub text_ord : Ord String
text_ord = record {
  le = text_le;
  total = text_le_total;
  trans = text_le_trans;
  antisym = text_le_antisym;
}

-- `float("inf")` stands for a missing value, so a missing value sorts last.
module _ {ℓ} {A : Type ℓ} ⦃o : Ord A⦄ where
  abbrev pub none_last : Option A → Option A → Bool
  none_last (some a) (some b) = o.le a b
  none_last (some a) none = true
  none_last none (some b) = false
  none_last none none = true

  pub none_last_total : (a b : Option A) → none_last a b ≡ false → none_last b a ≡ true
  none_last_total (some a) (some b) h = o.total a b h
  none_last_total (some a) none h = cc
  none_last_total none (some b) h = refl
  none_last_total none none h = refl

  pub none_last_trans :
      (a b c : Option A) → none_last a b ≡ true → none_last b c ≡ true → none_last a c ≡ true
  none_last_trans (some a) (some b) (some c) h k = o.trans a b c h k
  none_last_trans (some a) b none h k = refl
  none_last_trans (some a) none (some c) h k = cc
  none_last_trans none (some b) c h k = cc
  none_last_trans none none c h k = k

  pub none_last_antisym : (a b : Option A) → none_last a b ≡ true → none_last b a ≡ true → a ≡ b
  none_last_antisym (some a) (some b) h k = ap some (o.antisym a b h k)
  none_last_antisym (some a) none h k = cc
  none_last_antisym none (some b) h k = cc
  none_last_antisym none none h k = refl

  instance abbrev pub option_ord : Ord (Option A)
  option_ord = record {
    le = none_last;
    total = none_last_total;
    trans = none_last_trans;
    antisym = none_last_antisym;
  }

-- Tuples compare by their first part, then by the second.
module _ {ℓ κ} {A : Type ℓ} {B : Type κ} ⦃o : Ord A⦄ ⦃p : Ord B⦄ where
  abbrev pub pair_le : A × B → A × B → Bool
  pair_le (a, b) (c, d) = o.le a c && (not (o.le c a) || p.le b d)

  pub pair_le_total : (x y : A × B) → pair_le x y ≡ false → pair_le y x ≡ true
  pair_le_total (a, b) (c, d) h = ground (arith, o.total a c, o.total c a, p.total b d)

  pub pair_le_trans : (x y z : A × B) → pair_le x y ≡ true → pair_le y z ≡ true → pair_le x z ≡ true
  pair_le_trans (a, b) (c, d) (e, f) h k =
      ground (arith, o.trans a c e, o.trans e a c, o.trans c e a, p.trans b d f)

  pub pair_le_antisym : (x y : A × B) → pair_le x y ≡ true → pair_le y x ≡ true → x ≡ y
  pair_le_antisym (a, b) (c, d) h k = ground (arith, o.antisym a c, p.antisym b d)

  instance abbrev pub pair_ord : Ord (A × B)
  pair_ord = record {
    le = pair_le;
    total = pair_le_total;
    trans = pair_le_trans;
    antisym = pair_le_antisym;
  }
