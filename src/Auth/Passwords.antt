-- ===== src/Auth/Passwords.antt =====
-- mdrj/auth.py `hash_password` and `verify_password`.
pub mod Roundtrip
use Prim.Native.Char.{Char}
use Prim.Native.String.{[] as empty, ◌∷◌ as ◌∷∷◌, ◌++◌ as ◌+++◌}
use mathlib.Core.Path.{◌≡◌ as Same}
use text.Mathlib.TextLemmas.{append_assoc}
use text.Mathlib.Text.{starts_with}
use hashgraph.Prelude.{
  ℕ, ◌≡◌, refl, sym, ◌∙◌, ap, String, Bool, true, false, Option, none, some, List, [], ◌∷◌, arith,
  string_eq, nat_eq, if◌then◌else◌, ◌==◌, length, Result, ok, err, decimal, Eq, list_eq,
}

abbrev pub Bytes : Type 0
Bytes = List ℕ

pub data AuthError : Type 0 where
  empty_password bad_parameter : AuthError

-- The parts of a text before and after its first "$".
unfoldable pub cut : String → Option (String × String)
cut empty = none
cut (c ∷∷ s) =
    let rest = cut s in
    if (c ∷∷ empty) == "$"
    then some ("", s)
    else elim rest [ none ↦ none | some q ↦ some (c ∷∷ q.0, q.1) ]

-- What the source takes of the standard library: `hashlib.scrypt` with its parameters n, r, p and
-- dklen, where it refuses them `none`; `base64`; and `int` of a text.
pub record Crypto : Type 0 where
  pub scrypt : String → Bytes → ℕ → ℕ → ℕ → ℕ → Option Bytes
  pub b64encode : Bytes → String
  pub b64decode : String → Option Bytes
  pub int_of : String → Option ℕ

pub record Stored : Type 0 where
  pub n_str : String
  pub r_str : String
  pub p_str : String
  pub salt_b64 : String
  pub derived_b64 : String

infixl 4 ◌then_cut◌
abbrev pub ◌then_cut◌ :
    {A : Type 0} → Option (String × String) → (String → String → Option A) → Option A
none then_cut f = none
some (before, after) then_cut f = f before after

-- stored.split("$", 5) into six parts
unfoldable pub split_stored : String → Option Stored
unfolding cut
split_stored stored = cut stored then_cut λ algo rest. cut rest then_cut λ n_str rest.
    cut rest then_cut λ r_str rest. cut rest then_cut λ p_str rest.
    cut rest then_cut λ salt_b64 derived_b64. some (record {
      n_str = n_str;
      r_str = r_str;
      p_str = p_str;
      salt_b64 = salt_b64;
      derived_b64 = derived_b64;
    })

module _ (crypto : Crypto) where
  -- `salt` is os.urandom(16).
  unfoldable pub hash_password : Bytes → String → Result AuthError String
  hash_password salt password =
      if password == ""
      then err empty_password
      else elim (crypto.scrypt password salt 16384 8 1 32) [
        | none ↦ err bad_parameter
        | some derived ↦ ok (
            "scrypt$"
            +++ (decimal 16384
                +++ ("$"
                    +++ (decimal 8
                        +++ ("$"
                            +++ (decimal 1
                                +++ ("$"
                                    +++ (crypto.b64encode salt
                                        +++ ("$" +++ crypto.b64encode derived)))))))))
      ]

  -- The comparison with a stored key, once the parts are read. The numbers are read outside of the
  -- `try`, so a text that is no number is an error.
  unfoldable pub check_derived : String → Stored → Bytes → Bytes → Result AuthError Bool
  check_derived password stored salt expected = elim (crypto.int_of stored.n_str) [
    | none ↦ err bad_parameter
    | some n ↦ elim (crypto.int_of stored.r_str) [
      | none ↦ err bad_parameter
      | some r ↦ elim (crypto.int_of stored.p_str) [
        | none ↦ err bad_parameter
        | some p ↦ elim (crypto.scrypt password salt n r p (length expected)) [
          | none ↦ err bad_parameter
          | some actual ↦ ok (actual == expected)
        ]
      ]
    ]
  ]

  unfoldable pub verify_parts : String → Stored → Result AuthError Bool
  unfolding check_derived
  verify_parts password stored = elim (crypto.b64decode stored.salt_b64) [
    | none ↦ ok false
    | some salt ↦ elim (crypto.b64decode stored.derived_b64) [
      | none ↦ ok false
      | some expected ↦ check_derived password stored salt expected
    ]
  ]

  unfoldable pub verify_password : String → String → Result AuthError Bool
  unfolding split_stored verify_parts
  verify_password password stored =
      if starts_with stored "scrypt$"
      then elim (split_stored stored) [ none ↦ ok false | some parts ↦ verify_parts password parts ]
      else ok false
