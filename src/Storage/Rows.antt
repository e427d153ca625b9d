-- ===== src/Storage/Rows.antt =====
-- Lists of rows with distinct ids: selection, sorting and deletion by id.
use hashgraph.Prelude.{
  ℕ, ◌≡◌, refl, ◌∙◌, ap, String, Bool, true, false, ◌&&◌, not, List, [], ◌∷◌, map, arith, string_eq,
  nat_ord, if◌then◌else◌, keep, contains, nodup, sort_on, insert_on, All, beq_self, fun_ext,
}
use hashgraph.Storage.{StoredEvent, id_of, without_event}

abbrev pub row_ids : List StoredEvent → List String
row_ids rows = map id_of rows

-- The id of a row is among the ids.
abbrev pub is_among : List String → StoredEvent → Bool
is_among ids row = contains ids (id_of row)

pub keep-keep :
    (p q : StoredEvent → Bool) (xs : List StoredEvent)
    → keep q (keep p xs) ≡ keep (λ x. p x && q x) xs
unfolding keep
keep-keep p q [] = refl
keep-keep p q (x ∷ xs) = ground (arith, keep-keep p q xs)

pub keep_cong :
    (p q : StoredEvent → Bool) (xs : List StoredEvent)
    → All (λ x. p x ≡ q x) xs
    → keep p xs ≡ keep q xs
unfolding keep
keep_cong p q [] h = refl
keep_cong p q (x ∷ xs) h = rw (h.0, keep_cong p q xs h.1) refl

pub contains-row_ids-keep :
    (p : StoredEvent → Bool) (xs : List StoredEvent) (k : String)
    → contains (row_ids xs) k ≡ false
    → contains (row_ids (keep p xs)) k ≡ false
unfolding keep contains
contains-row_ids-keep p [] k h = refl
contains-row_ids-keep p (x ∷ xs) k h = ground (arith, contains-row_ids-keep p xs k)

pub nodup-row_ids-keep :
    (p : StoredEvent → Bool) (xs : List StoredEvent)
    → nodup (row_ids xs) ≡ true
    → nodup (row_ids (keep p xs)) ≡ true
unfolding keep nodup
nodup-row_ids-keep p [] h = refl
nodup-row_ids-keep p (x ∷ xs) h =
    ground (arith, nodup-row_ids-keep p xs, contains-row_ids-keep p xs (id_of x))

module _ (f : StoredEvent → ℕ) where
  contains-row_ids-insert_on :
      (x : StoredEvent) (xs : List StoredEvent) (k : String)
      → contains (row_ids (insert_on f x xs)) k ≡ contains (row_ids (x ∷ xs)) k
  unfolding insert_on contains
  contains-row_ids-insert_on x [] k = refl
  contains-row_ids-insert_on x (y ∷ xs) k = ground (arith, contains-row_ids-insert_on x xs k)

  pub contains-row_ids-sort_on :
      (xs : List StoredEvent) (k : String)
      → contains (row_ids (sort_on f xs)) k ≡ contains (row_ids xs) k
  unfolding sort_on contains
  contains-row_ids-sort_on [] k = refl
  contains-row_ids-sort_on (x ∷ xs) k =
      ground (arith, contains-row_ids-insert_on x (sort_on f xs) k, contains-row_ids-sort_on xs k)

  nodup-row_ids-insert_on :
      (x : StoredEvent) (xs : List StoredEvent)
      → nodup (row_ids (insert_on f x xs)) ≡ nodup (row_ids (x ∷ xs))
  unfolding insert_on nodup contains
  nodup-row_ids-insert_on x [] = refl
  nodup-row_ids-insert_on x (y ∷ xs) = ground (
    arith,
    nodup-row_ids-insert_on x xs,
    contains-row_ids-insert_on x xs (id_of y),
    string_eq.beq_iff (id_of x) (id_of y),
    string_eq.beq_iff (id_of y) (id_of x),
  )

  pub nodup-row_ids-sort_on :
      (xs : List StoredEvent) → nodup (row_ids (sort_on f xs)) ≡ nodup (row_ids xs)
  unfolding sort_on nodup
  nodup-row_ids-sort_on [] = refl
  nodup-row_ids-sort_on (x ∷ xs) = ground (
    arith,
    nodup-row_ids-insert_on x (sort_on f xs),
    nodup-row_ids-sort_on xs,
    contains-row_ids-sort_on xs (id_of x),
  )

-- With distinct ids, the rows whose id is among those of the selected rows are the selected rows.
pub selected_by_id :
    (p : StoredEvent → Bool) (xs : List StoredEvent)
    → nodup (row_ids xs) ≡ true
    → All (λ x. is_among (row_ids (keep p xs)) x ≡ p x) xs
unfolding keep nodup contains
selected_by_id p [] h = tt
selected_by_id p (x ∷ xs) h =
    let fresh : contains (row_ids xs) (id_of x) ≡ false = ground arith in
    let rest = selected_by_id p xs (ground arith) in
    (ground (arith, contains-row_ids-keep p xs (id_of x), beq_self (id_of x)), later xs fresh rest)
  where
    later :
        (ys : List StoredEvent)
        → contains (row_ids ys) (id_of x) ≡ false
        → All (λ y. is_among (row_ids (keep p xs)) y ≡ p y) ys
        → All (λ y. is_among (row_ids (if p x then x ∷ keep p xs else keep p xs)) y ≡ p y) ys
    later [] k a = tt
    later (y ∷ ys) k a = (
      ground (
        arith,
        a.0,
        string_eq.beq_iff (id_of x) (id_of y),
        string_eq.beq_iff (id_of y) (id_of x),
      ),
      later ys (ground arith) a.1,
    )

pub keep_all : (xs : List StoredEvent) → keep (λ x. true) xs ≡ xs
unfolding keep
keep_all [] = refl
keep_all (x ∷ xs) = ap (◌∷◌ x) (keep_all xs)

-- Deleting one id and then others is deleting them all.
pub keep-without_event :
    (k : String) (ids : List String) (xs : List StoredEvent)
    → keep (λ x. not (is_among ids x)) (without_event k xs)
      ≡ keep (λ x. not (is_among (k ∷ ids) x)) xs
unfolding without_event contains
keep-without_event k ids xs =
    keep-keep _ _ xs
    ∙ ap (λ p. keep p xs)
        (fun_ext λ x. ground (arith, string_eq.beq_iff k (id_of x), string_eq.beq_iff (id_of x) k))

-- With distinct ids, deleting the ids of the selected rows leaves the others.
pub keep-unselected :
    (p : StoredEvent → Bool) (xs : List StoredEvent) (ids : List String)
    → nodup (row_ids xs) ≡ true
    → ((k : String) → contains ids k ≡ contains (row_ids (keep p xs)) k)
    → keep (λ x. not (is_among ids x)) xs ≡ keep (λ x. not (p x)) xs
keep-unselected p xs ids h same =
    ap (λ q. keep q xs) (fun_ext λ x. ap not (same (id_of x)))
    ∙ keep_cong _ _ xs (negated xs (selected_by_id p xs h))
  where
    negated :
        (ys : List StoredEvent)
        → All (λ y. is_among (row_ids (keep p xs)) y ≡ p y) ys
        → All (λ y. not (is_among (row_ids (keep p xs)) y) ≡ not (p y)) ys
    negated [] a = tt
    negated (y ∷ ys) a = (ap not a.0, negated ys a.1)
