-- ===== src/Auth/Passwords/Roundtrip.antt =====
-- A password is accepted against its own hash, and another one exactly where the derived keys agree.
use Prim.Native.String.{[] as empty, ◌∷◌ as ◌∷∷◌, ◌++◌ as ◌+++◌}
use text.Mathlib.TextLemmas.{nil-append, cons-append, append_assoc}
use text.Mathlib.TextPositions.{starts_with-append}
use hashgraph.Prelude.{
  ◌≡◌, refl, sym, subst, ◌∙◌, ap, String, true, false, none, some, arith, string_eq, nat_eq,
  list_eq, ◌==◌, length, ok, decimal, beq_self,
}
use hashgraph.Auth.Passwords.{
  Bytes, Crypto, Stored, cut, split_stored, hash_password, check_derived, verify_parts,
  verify_password,
}

-- What the code relies on for a salt and a key: Base64 decodes what it encodes and does not use "$",
-- `int` reads the three numbers of the hash, and the key has the length that was asked for.
pub record IsDocumented (crypto : Crypto) (salt key : Bytes) : Type 0 where
  pub salt_back : crypto.b64decode (crypto.b64encode salt) ≡ some salt
  pub key_back : crypto.b64decode (crypto.b64encode key) ≡ some key
  pub salt_plain : cut (crypto.b64encode salt) ≡ none
  pub n_read : crypto.int_of (decimal 16384) ≡ some 16384
  pub r_read : crypto.int_of (decimal 8) ≡ some 8
  pub p_read : crypto.int_of (decimal 1) ≡ some 1
  pub key_length : length key ≡ 32

cut-dollar : (t : String) → cut ("$" +++ t) ≡ some ("", t)
unfolding cut
cut-dollar t = rw (cons-append "$" "" t, nil-append t) refl

cut-append : (s t : String) → cut s ≡ none → cut (s +++ ("$" +++ t)) ≡ some (s, t)
unfolding cut
cut-append empty t h = rw (nil-append ("$" +++ t)) (cut-dollar t)
cut-append (c ∷∷ s) t h = rw (cons-append c s ("$" +++ t)) (ground (arith, cut-append s t))

split_six :
    (a b c d e f : String)
    → cut a ≡ none
    → cut b ≡ none
    → cut c ≡ none
    → cut d ≡ none
    → cut e ≡ none
    → split_stored
        (a +++ ("$" +++ (b +++ ("$" +++ (c +++ ("$" +++ (d +++ ("$" +++ (e +++ ("$" +++ f))))))))))
      ≡ some (record { n_str = b; r_str = c; p_str = d; salt_b64 = e; derived_b64 = f })
unfolding split_stored
split_six a b c d e f ha hb hc hd he =
    rw
      (
        cut-append a _ ha,
        cut-append b _ hb,
        cut-append c _ hc,
        cut-append d _ hd,
        cut-append e f he,
      )
      refl

module _ (crypto : Crypto) (salt mine : Bytes) (documented : IsDocumented crypto salt mine) where
  -- The text after the name of the algorithm.
  after_name : String
  after_name =
      decimal 16384
      +++ ("$"
          +++ (decimal 8
              +++ ("$"
                  +++ (decimal 1
                      +++ ("$" +++ (crypto.b64encode salt +++ ("$" +++ crypto.b64encode mine)))))))

  stored_text : String
  unfolding after_name
  stored_text = "scrypt$" +++ after_name

  parts : Stored
  parts = record {
    n_str = decimal 16384;
    r_str = decimal 8;
    p_str = decimal 1;
    salt_b64 = crypto.b64encode salt;
    derived_b64 = crypto.b64encode mine;
  }

  split-stored_text : split_stored stored_text ≡ some parts
  unfolding stored_text parts decimal cut after_name
  split-stored_text =
      subst (λ z. split_stored z ≡ some parts) (sym (append_assoc "scrypt" "$" after_name))
        (split_six "scrypt" (decimal 16384) (decimal 8) (decimal 1) (crypto.b64encode salt)
          (crypto.b64encode mine) refl refl refl refl documented.salt_plain)

  -- A candidate that derives `theirs` is compared with the stored key.
  verify-parts :
      (attempt : String) (theirs : Bytes)
      → crypto.scrypt attempt salt 16384 8 1 32 ≡ some theirs
      → verify_parts crypto attempt parts ≡ ok (theirs == mine)
  unfolding verify_parts check_derived parts
  verify-parts attempt theirs l =
      rw
        (
          documented.salt_back, documented.key_back, documented.n_read, documented.r_read,
          documented.p_read, documented.key_length, l, verify_parts, check_derived,
        )
        refl

  -- What is stored is compared part by part.
  verify-stored_text :
      (attempt : String) (theirs : Bytes)
      → crypto.scrypt attempt salt 16384 8 1 32 ≡ some theirs
      → verify_password crypto attempt stored_text ≡ ok (theirs == mine)
  unfolding verify_password stored_text
  verify-stored_text attempt theirs l =
      rw (starts_with-append "scrypt$" after_name, split-stored_text)
        (verify-parts attempt theirs l)

  -- A non-empty password has a hash, and a password is accepted against it exactly where the two
  -- derive the same key from the salt; the password itself is accepted. This for a salt and a key
  -- that Base64 and `int` read back as documented.
  pub verify_password-hash_password :
      (password attempt : String) (theirs : Bytes)
      → (password == "") ≡ false
      → crypto.scrypt password salt 16384 8 1 32 ≡ some mine
      → crypto.scrypt attempt salt 16384 8 1 32 ≡ some theirs
      → (stored : String) × (hash_password crypto salt password ≡ ok stored)
        × (verify_password crypto attempt stored ≡ ok (theirs == mine))
        × (verify_password crypto password stored ≡ ok true)
  unfolding hash_password stored_text after_name
  verify_password-hash_password password attempt theirs h k l = (
    stored_text,
    rw (h, k) refl,
    verify-stored_text attempt theirs l,
    verify-stored_text password mine k ∙ ap ok (beq_self mine),
  )
