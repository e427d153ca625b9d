-- ===== src/Node/Peers/Entries.antt =====
-- The entries of a dict with distinct keys, and what writes keep of them.
use hashgraph.Prelude.{
  ◌≡◌, refl, String, Bool, true, false, some, [], ◌∷◌, string_eq, arith, nat_ord, text_ord,
  pair_ord, ◌==◌, contains, nodup, All, Bool-cases, inl, inr, beq_self,
}
use hashgraph.Dict.{Dict, get, put, remove, keys}

module _ {V : Type 0} where
  pub contains-keys-remove :
      (k j : String) (d : Dict String V)
      → contains (keys d) j ≡ false
      → contains (keys (remove k d)) j ≡ false
  unfolding contains remove
  contains-keys-remove k j [] h = refl
  contains-keys-remove k j (e ∷ d) h = ground (arith, contains-keys-remove k j d)

  pub nodup-keys-remove :
      (k : String) (d : Dict String V) → nodup (keys d) ≡ true → nodup (keys (remove k d)) ≡ true
  unfolding nodup remove
  nodup-keys-remove k [] h = refl
  nodup-keys-remove k (e ∷ d) h =
      ground (arith, nodup-keys-remove k d, contains-keys-remove k e.0 d)

  -- The entries are what a lookup of their keys finds.
  pub entries_skip :
      (k : String) (v : V) (d es : Dict String V)
      → contains (keys es) k ≡ false
      → All (λ e. get e.0 d ≡ some e.1) es
      → All (λ e. get e.0 ((k, v) ∷ d) ≡ some e.1) es
  unfolding contains get
  entries_skip k v d [] h a = tt
  entries_skip k v d (e ∷ es) h a = (
    ground (arith, a.0, string_eq.beq_iff k e.0, string_eq.beq_iff e.0 k),
    entries_skip k v d es (ground arith) a.1,
  )

  pub entries-get : (d : Dict String V) → nodup (keys d) ≡ true → All (λ e. get e.0 d ≡ some e.1) d
  unfolding nodup get
  entries-get [] h = tt
  entries-get ((k, v) ∷ d) h =
      (rw (beq_self k) refl, entries_skip k v d d (ground arith) (entries-get d (ground arith)))

  -- What holds of the keys holds after a write to a key of which it holds.
  pub All-put :
      (g : String → Bool) (k : String) (v : V) (d : Dict String V)
      → g k ≡ true
      → All (λ e. g e.0 ≡ true) d
      → All (λ e. g e.0 ≡ true) (put k v d)
  unfolding put
  All-put g k v [] h a = (h, tt)
  All-put g k v ((j, w) ∷ d) h a = elim (Bool-cases (j == k)) [
    | inl q ↦ rw q (a.0, a.1)
    | inr q ↦ rw q (a.0, All-put g k v d h a.1)
  ]

  pub All-mono :
      (g g' : String → Bool) (d : Dict String V)
      → ((k : String) → g k ≡ true → g' k ≡ true)
      → All (λ e. g e.0 ≡ true) d
      → All (λ e. g' e.0 ≡ true) d
  All-mono g g' [] h a = tt
  All-mono g g' (e ∷ d) h a = (h e.0 a.0, All-mono g g' d h a.1)
