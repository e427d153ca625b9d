-- ===== src/VectorClock/Lamport.antt =====
-- `compare_lamport`: the sums of the counters order the clocks in line with causality.
use hashgraph.Prelude.{
  ℕ, ◌+◌, ◌≤◌, ◌≡◌, refl, String, true, false, [], ◌∷◌, arith, string_eq, ltb, if◌then◌else◌,
  contains, nodup, Bool-cases, inl, inr,
}
use hashgraph.Dict.{keys, get_or, remove, get-remove}
use hashgraph.VectorClock.{Clock, counter, lamport, compare_lamport, minus, happened_before}
use hashgraph.VectorClock.Laws.{IsDict, counter_absent, counter-cons, counter-nil}
use hashgraph.VectorClock.Causality.{LeClock, before_iff}

counter-remove :
    (c : Clock) (k j : String)
    → counter (remove k c) j ≡ (if string_eq.beq k j then 0 else counter c j)
unfolding get_or
counter-remove c k j = ground (arith, get-remove k j c)

lamport-remove_absent :
    (c : Clock) (k : String) → contains (keys c) k ≡ false → lamport (remove k c) ≡ lamport c
unfolding lamport remove contains
lamport-remove_absent [] k h = refl
lamport-remove_absent ((j, n) ∷ c) k h = ground (arith, lamport-remove_absent c k)

contains-keys-remove :
    (c : Clock) (k j : String)
    → contains (keys c) j ≡ false
    → contains (keys (remove k c)) j ≡ false
unfolding contains remove
contains-keys-remove [] k j h = refl
contains-keys-remove ((i, n) ∷ c) k j h = ground (arith, contains-keys-remove c k j)

remove-IsDict : (c : Clock) (k : String) → IsDict c → IsDict (remove k c)
unfolding nodup remove
remove-IsDict [] k h = refl
remove-IsDict ((i, n) ∷ c) k h = ground (arith, remove-IsDict c k, contains-keys-remove c k i)

lamport_split : (c : Clock) (k : String) → IsDict c → lamport c ≡ counter c k + lamport (remove k c)
unfolding lamport remove nodup
lamport_split [] k h = omega (arith, counter-nil k)
lamport_split ((j, n) ∷ c) k h = ground (
  arith,
  counter-cons c j k n,
  lamport_split c k,
  lamport-remove_absent c k,
  string_eq.beq_iff j k,
)

lamport_zero : (c : Clock) (k : String) → IsDict c → lamport c ≡ 0 → counter c k ≡ 0
lamport_zero c k h e = omega (arith, lamport_split c k h)

counter-cons_self : (c : Clock) (k : String) (n : ℕ) → counter ((k, n) ∷ c) k ≡ n
counter-cons_self c k n = ground (arith, counter-cons c k k n, string_eq.beq_iff k k)

LeClock-tail :
    (c d : Clock) (k : String) (n : ℕ)
    → contains (keys c) k ≡ false
    → LeClock ((k, n) ∷ c) d
    → LeClock c (remove k d)
LeClock-tail c d k n fresh le j = ground (
  arith,
  counter-cons c k j n,
  counter-remove d k j,
  le j,
  counter_absent c k fresh,
  string_eq.beq_iff k j,
)

-- A pointwise smaller clock has no larger sum, and with equal sums the clocks agree.
lamport-le :
    (c d : Clock)
    → IsDict c
    → IsDict d
    → LeClock c d
    → (lamport c ≤ lamport d) × (lamport c ≡ lamport d → LeClock d c)
unfolding lamport nodup
lamport-le [] d hc hd le = (omega arith, λ e k. omega (arith, lamport_zero d k hd (omega arith)))
lamport-le ((k, n) ∷ c) d hc hd le =
    let tail_dict : nodup (keys c) ≡ true = ground arith in
    let fresh : contains (keys c) k ≡ false = ground arith in
    let (sum_le, back) =
      lamport-le c (remove k d) tail_dict (remove-IsDict d k hd) (LeClock-tail c d k n fresh le) in
    (
      omega (arith, lamport_split d k hd, le k, counter-cons_self c k n),
      λ e j. ground (
        arith,
        counter-cons c k j n,
        counter-remove d k j,
        lamport_split d k hd,
        le k,
        counter-cons_self c k n,
        string_eq.beq_iff k j,
        back (omega (arith, lamport_split d k hd, le k, counter-cons_self c k n)) j,
      ),
    )

-- Where one clock happened before another, `compare_lamport` answers -1.
pub happened_before-compare_lamport :
    (c d : Clock) → IsDict c → IsDict d → happened_before c d ≡ true → compare_lamport c d ≡ minus
unfolding compare_lamport
happened_before-compare_lamport c d hc hd h =
    let (le, not_ge) = (before_iff c d).0 h in
    let (sum_le, agree) = lamport-le c d hc hd le in
    elim (Bool-cases (ltb (lamport c) (lamport d))) [
      | inl less ↦ rw less
      | inr not_less ↦ absurd (not_ge (agree (ground arith)))
    ]
