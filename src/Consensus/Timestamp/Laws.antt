-- ===== src/Consensus/Timestamp/Laws.antt =====
-- What is observed, and how far the median can be moved by a minority.
use hashgraph.Prelude.{
  ℕ, zero, suc, ◌+◌, ◌-◌, ◌*◌, ◌/◌, ◌%◌, ◌≤◌, ◌<◌, ◌≡◌, ◌↔◌, refl, String, Bool, true, false, ◌&&◌,
  Option, none, some, List, [], ◌∷◌, arith, ◌==◌, string_eq, nat_eq, nat_ord, ltb, leb,
  if◌then◌else◌, contains, length, count_if, count_if-le, sort_on, insert_on, AllAbove, IsSortedOn,
  sort_on-IsSortedOn, strip, Bool-cases, ◌⊎◌, inl, inr,
}
use hashgraph.Dict.{values, get, get-put}
use hashgraph.Models.{Time, Hop}
use hashgraph.Consensus.Timestamp.{
  Observations, item, median, observe_at, observe, consensus_timestamp,
}

-- The earlier of a known time and a hop's, where the hop is the node's and has a time.
abbrev pub sooner : Bool → Option Time → Option Time → Option Time
sooner true (some ts) (some old) = some (if ltb ts old then ts else old)
sooner true (some ts) none = some ts
sooner true none old = old
sooner false ts old = old

-- The earliest time at which the node `k` names itself in the hops.
abbrev pub earliest : String → Option Time → List Hop → Option Time
earliest k seen [] = seen
earliest k seen (hop ∷ hops) = earliest k (sooner (strip hop.node == k) hop.ts seen) hops

length-insert_on : (x : Time) (ys : List Time) → length (insert_on (λ t. t) x ys) ≡ suc (length ys)
unfolding insert_on
length-insert_on x [] = refl
length-insert_on x (y ∷ ys) = ground (arith, length-insert_on x ys)

length-sort_on : (xs : List Time) → length (sort_on (λ t. t) xs) ≡ length xs
unfolding sort_on
length-sort_on [] = refl
length-sort_on (x ∷ xs) = omega (arith, length-insert_on x (sort_on (λ t. t) xs), length-sort_on xs)

count_if-insert_on :
    (p : Time → Bool) (x : Time) (ys : List Time)
    → count_if p (insert_on (λ t. t) x ys) ≡ count_if p (x ∷ ys)
unfolding count_if insert_on
count_if-insert_on p x [] = refl
count_if-insert_on p x (y ∷ ys) = ground (arith, count_if-insert_on p x ys)

count_if-sort_on :
    (p : Time → Bool) (xs : List Time) → count_if p (sort_on (λ t. t) xs) ≡ count_if p xs
unfolding sort_on count_if
count_if-sort_on p [] = refl
count_if-sort_on p (x ∷ xs) =
    omega (arith, count_if-insert_on p x (sort_on (λ t. t) xs), count_if-sort_on p xs)

item_above :
    (b : Time) (xs : List Time) (i : ℕ) → AllAbove (λ t. t) b xs → i < length xs → b ≤ item xs i
item_above b [] i a h = absurd (omega arith)
item_above b (x ∷ xs) zero a h = ground (arith, a.0)
item_above b (x ∷ xs) (suc i) a h = item_above b xs i a.1 (omega arith)

-- In an ordered list the elements below `lo` come first, and those above `hi` last.
item_low :
    (lo : Time) (xs : List Time) (i : ℕ)
    → IsSortedOn (λ t. t) xs
    → i < length xs
    → count_if (λ v. ltb v lo) xs ≤ i
    → lo ≤ item xs i
unfolding count_if
item_low lo [] i s h c = absurd (omega arith)
item_low lo (x ∷ xs) zero s h c = ground arith
item_low lo (x ∷ xs) (suc i) s h c = ground (arith, item_low lo xs i s.1, item_above x xs i s.0)

none_above :
    (hi : Time) (xs : List Time) (b : Time)
    → AllAbove (λ t. t) b xs
    → hi < b
    → count_if (λ v. ltb hi v) xs ≡ length xs
unfolding count_if
none_above hi [] b a h = refl
none_above hi (x ∷ xs) b a h = ground (arith, a.0, none_above hi xs b a.1 h)

item_high :
    (hi : Time) (xs : List Time) (i : ℕ)
    → IsSortedOn (λ t. t) xs
    → i + count_if (λ v. ltb hi v) xs < length xs
    → item xs i ≤ hi
unfolding count_if
item_high hi [] i s h = absurd (omega arith)
item_high hi (x ∷ xs) zero s h = ground (arith, none_above hi xs x s.0)
item_high hi (x ∷ xs) (suc i) s h = ground (arith, item_high hi xs i s.1)

count_if_outside :
    (lo hi : Time) (xs : List Time)
    → (count_if (λ v. ltb v lo) xs + count_if (λ v. leb lo v && leb v hi) xs ≤ length xs)
      × (count_if (λ v. ltb hi v) xs + count_if (λ v. leb lo v && leb v hi) xs ≤ length xs)
unfolding count_if
count_if_outside lo hi [] = omega arith
count_if_outside lo hi (x ∷ xs) = ground (arith, count_if_outside lo hi xs)

-- What the source relies on of (a + b) / 2: up to the limit, where the sum of two times is finite, the
-- result lies between the two.
abbrev pub IsBetween : Time → (Time → Time → Time) → Type 0
IsBetween limit midpoint =
    (a b lo hi : Time)
    → hi ≤ limit
    → lo ≤ a
    → lo ≤ b
    → a ≤ hi
    → b ≤ hi
    → (lo ≤ midpoint a b) × (midpoint a b ≤ hi)

module _ (limit : Time) (midpoint : Time → Time → Time) (between : IsBetween limit midpoint)
    (lo hi : Time) (finite : hi ≤ limit) (ordered : List Time)
    (sorted : IsSortedOn (λ t. t) ordered)
    (most : length ordered < 2 * count_if (λ v. leb lo v && leb v hi) ordered) where
  within :
      (i : ℕ)
      → i < length ordered
      → length ordered ≤ 2 * i + 2
      → 2 * i ≤ length ordered
      → (length ordered ≤ 2 * i + 1) ⊎ (length ordered % 2 ≡ 0)
      → (lo ≤ item ordered i) × (item ordered i ≤ hi)
  within i small low high middle =
      let (outside_low, outside_high) = count_if_outside lo hi ordered in
      (
        item_low lo ordered i sorted small (omega arith),
        item_high hi ordered i sorted (omega arith),
      )

  middle_between :
      (t : Time)
      → (if nat_eq.beq (length ordered % 2) 1
          then some (item ordered (length ordered / 2))
          else some (
              midpoint (item ordered (length ordered / 2 - 1)) (item ordered (length ordered / 2))))
        ≡ some t
      → (lo ≤ t) × (t ≤ hi)
  middle_between t e =
      let mid = length ordered / 2 in
      let pos : 0 < length ordered =
        omega (arith, count_if-le (λ v. leb lo v && leb v hi) ordered) in
      elim (Bool-cases (nat_eq.beq (length ordered % 2) 1)) [
        | inl odd ↦
            let is_odd : length ordered % 2 ≡ 1 = ground arith in
            let is_item : item ordered mid ≡ t = cc (rw odd at e) in
            rw (← is_item)
              (within mid (omega arith) (omega arith) (omega arith) (inl (omega arith)))
        | inr even ↦
            let is_even : length ordered % 2 ≡ 0 = ground arith in
            let is_mean : midpoint (item ordered (mid - 1)) (item ordered mid) ≡ t =
              cc (rw even at e) in
            let low = within (mid - 1) (omega arith) (omega arith) (omega arith) (inr is_even) in
            let high = within mid (omega arith) (omega arith) (omega arith) (inr is_even) in
            rw (← is_mean) (between _ _ lo hi finite low.0 high.0 low.1 high.1)
      ]

median_between :
    (limit : Time) (midpoint : Time → Time → Time) (between : IsBetween limit midpoint)
    (lo hi : Time) (finite : hi ≤ limit) (vs : List Time)
    → length vs < 2 * count_if (λ v. leb lo v && leb v hi) vs
    → (t : Time) → median midpoint vs ≡ some t
    → (lo ≤ t) × (t ≤ hi)
unfolding median
median_between limit midpoint between lo hi finite [] h t e = cc
median_between limit midpoint between lo hi finite (v ∷ vs) h t e =
    middle_between limit midpoint between lo hi finite (sort_on (λ u. u) (v ∷ vs))
      (sort_on-IsSortedOn (λ u. u) (v ∷ vs))
      (omega
        (arith, length-sort_on (v ∷ vs), count_if-sort_on (λ u. leb lo u && leb u hi) (v ∷ vs)))
      t e

get-observe_at :
    (members : List String) (node_id : String) (ts : Option Time) (seen : Observations) (k : String)
    → get k (observe_at members node_id ts seen)
      ≡ (if contains members k then sooner (node_id == k) ts (get k seen) else get k seen)
get-observe_at members node_id none seen k = ground arith
get-observe_at members node_id (some ts) seen k = elim (Bool-cases (node_id == k)) [
  | inl same ↦
      rw (← (string_eq.beq_iff node_id k).0 same)
        (ground (arith, get-put node_id node_id ts seen, string_eq.beq_iff node_id node_id))
  | inr other ↦ ground (arith, get-put node_id k ts seen)
]

observe_from :
    (members : List String) (hops : List Hop) (seen : Observations) (k : String)
    → get k (observe members seen hops)
      ≡ (if contains members k then earliest k (get k seen) hops else get k seen)
unfolding observe
observe_from members [] seen k = ground arith
observe_from members (hop ∷ hops) seen k =
    let node_id = strip hop.node in
    rw
      (
        observe_from members hops (observe_at members node_id hop.ts seen) k,
        get-observe_at members node_id hop.ts seen k,
      )
      (elim (Bool-cases (contains members k)) [ inl e ↦ rw e | inr e ↦ rw e ])

-- The observations are each member's earliest time, as the hops show it, and nothing of others.
pub observe-earliest :
    (members : List String) (hops : List Hop) (k : String)
    → get k (observe members [] hops) ≡ (if contains members k then earliest k none hops else none)
unfolding get
observe-earliest members hops k = observe_from members hops [] k

length-values : (seen : Observations) → length (values seen) ≡ length seen
length-values [] = refl
length-values (e ∷ seen) = omega (arith, length-values seen)

median_total :
    (midpoint : Time → Time → Time) (vs : List Time)
    → 0 < length vs
    → (t : Time) × (median midpoint vs ≡ some t)
unfolding median
median_total midpoint [] h = absurd (omega arith)
median_total midpoint (v ∷ vs) h =
    let ordered = sort_on (λ u. u) (v ∷ vs) in
    elim (Bool-cases (nat_eq.beq (length ordered % 2) 1)) [
      | inl odd ↦ (item ordered (length ordered / 2), rw odd)
      | inr even ↦ (
        midpoint (item ordered (length ordered / 2 - 1)) (item ordered (length ordered / 2)),
        rw even,
      )
    ]

-- A timestamp is given exactly where at least `quorum` members have an observation.
pub consensus_timestamp_defined :
    (midpoint : Time → Time → Time) (members : List String) (quorum : ℕ) (hops : List Hop)
    → 0 < quorum
    → (quorum ≤ length (observe members [] hops))
      ↔ ((t : Time) × (consensus_timestamp midpoint members quorum hops ≡ some t))
unfolding consensus_timestamp
consensus_timestamp_defined midpoint members quorum hops pos =
    let seen = observe members [] hops in
    elim (Bool-cases (ltb (length seen) quorum)) [
      | inl few ↦ rw few (λ enough. absurd (ground arith), λ (t, e). cc)
      | inr enough ↦ rw enough (
        λ _. median_total midpoint (values seen) (ground (arith, length-values seen)),
        λ _. ground arith,
      )
    ]

-- Where (a + b) / 2 lies between two times up to a limit, a timestamp lies in every interval below
-- the limit that holds the observations of more than half of the members that have one.
pub consensus_timestamp_between :
    (limit : Time) (midpoint : Time → Time → Time) (between : IsBetween limit midpoint)
    (members : List String) (quorum : ℕ) (hops : List Hop) (lo hi t : Time)
    → hi ≤ limit
    → length (values (observe members [] hops))
      < 2 * count_if (λ v. leb lo v && leb v hi) (values (observe members [] hops))
    → consensus_timestamp midpoint members quorum hops ≡ some t
    → (lo ≤ t) × (t ≤ hi)
unfolding consensus_timestamp
consensus_timestamp_between limit midpoint between members quorum hops lo hi t finite most =
    let seen = observe members [] hops in
    elim (Bool-cases (ltb (length seen) quorum)) [
      | inl few ↦ rw few (λ e. cc)
      | inr enough ↦
          rw enough (λ e. median_between limit midpoint between lo hi finite (values seen) most t e)
    ]
