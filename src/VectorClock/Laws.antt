-- ===== src/VectorClock/Laws.antt =====
-- What `merge` and `increment` do to each counter.
use hashgraph.Prelude.{
  ℕ, ◌+◌, max, ◌≡◌, refl, String, true, false, [], ◌∷◌, arith, ◌==◌, string_eq, if◌then◌else◌,
  contains, nodup,
}
use hashgraph.Dict.{keys, get, get_or, put, get-put, has, contains-keys, nodup-keys-put}
use hashgraph.VectorClock.{Clock, counter, increment, merge}

-- A dict has each key once.
abbrev pub IsDict : Clock → Type 0
IsDict c = nodup (keys c) ≡ true

pub counter-put :
    (c : Clock) (k j : String) (n : ℕ) → counter (put k n c) j ≡ (if k == j then n else counter c j)
unfolding get_or
counter-put c k j n = ground (arith, get-put k j n c)

pub counter-cons :
    (c : Clock) (k j : String) (n : ℕ)
    → counter ((k, n) ∷ c) j ≡ (if k == j then n else counter c j)
unfolding get_or get
counter-cons c k j n = ground arith

pub counter-nil : (j : String) → counter [] j ≡ 0
unfolding get_or get
counter-nil j = refl

pub counter-increment :
    (c : Clock) (k j : String)
    → counter (increment c k) j ≡ (if k == j then counter c k + 1 else counter c j)
unfolding increment
counter-increment c k j = counter-put c k j _

-- A key that is not among the keys counts 0.
pub counter_absent : (c : Clock) (k : String) → contains (keys c) k ≡ false → counter c k ≡ 0
unfolding get_or has
counter_absent c k h = ground (arith, contains-keys k c)

pub merge-IsDict : (c d : Clock) → IsDict c → IsDict (merge c d)
unfolding merge
merge-IsDict c [] h = h
merge-IsDict c ((k, n) ∷ d) h =
    merge-IsDict (put k (max (counter c k) n) c) d (nodup-keys-put k _ c h)

pub increment-IsDict : (c : Clock) (k : String) → IsDict c → IsDict (increment c k)
unfolding increment
increment-IsDict c k h = nodup-keys-put k _ c h

-- Merging takes the larger of the two counters, at every node.
pub counter-merge :
    (c d : Clock) (j : String) → IsDict d → counter (merge c d) j ≡ max (counter c j) (counter d j)
unfolding merge nodup
counter-merge c [] j h = omega (arith, counter-nil j)
counter-merge c ((k, n) ∷ d) j h = ground (
  arith,
  counter-merge (put k (max (counter c k) n) c) d j,
  counter-put c k j (max (counter c k) n),
  counter-cons d k j n,
  counter_absent d k,
  string_eq.beq_iff k j,
)
