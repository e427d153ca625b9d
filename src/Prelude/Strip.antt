-- ===== src/Prelude/Strip.antt =====
-- Python's `str.strip()`.
use Prim.Native.Nat.{ℕ}
use Prim.Native.Char.{Char, code}
use Prim.Native.String.{String, [], ◌∷◌}
use mathlib.Core.Path.{◌≡◌, refl}
use mathlib.Core.Bool.{Bool, true, false, ◌&&◌, ◌||◌}
use hashgraph.Prelude.Tests.{leb, nat_beq}

-- str.isspace() of one character
is_space : ℕ → Bool
is_space c =
    leb 9 c && leb c 13
    || leb 28 c && leb c 32
    || nat_beq c 133
    || nat_beq c 160
    || nat_beq c 5760
    || leb 8192 c && leb c 8202
    || leb 8232 c && leb c 8233
    || nat_beq c 8239
    || nat_beq c 8287
    || nat_beq c 12288

strip_left : String → String
strip_left [] = []
strip_left (c ∷ s) = elim (is_space (code c)) [ true ↦ strip_left s | false ↦ c ∷ s ]

-- A space at the end goes where nothing but spaces follows it.
drop_space : Char → String → String
drop_space c [] = elim (is_space (code c)) [ true ↦ [] | false ↦ c ∷ [] ]
drop_space c (d ∷ s) = c ∷ (d ∷ s)

strip_right : String → String
strip_right [] = []
strip_right (c ∷ s) = drop_space c (strip_right s)

unfoldable pub strip : String → String
unfolding is_space strip_left drop_space strip_right
strip s = strip_right (strip_left s)

strip_both : strip " a b " ≡ "a b"
unfolding strip
strip_both = refl

strip_blank : strip "   " ≡ ""
unfolding strip
strip_blank = refl
