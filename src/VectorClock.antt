-- ===== src/VectorClock.antt =====
-- mdrj/vectorclock.py: vector clocks as dicts from node ids to counters.
pub mod Laws
pub mod Causality
pub mod Lamport
use hashgraph.Prelude.{
  ℕ, ◌+◌, max, ◌≡◌, String, Bool, true, false, ◌&&◌, ◌||◌, not, Option, none, some, List, [], ◌∷◌,
  ◌++◌, string_eq, ltb, if◌then◌else◌, contains, keep,
}
use hashgraph.Dict.{Dict, keys, get_or, put}

pub data VectorRelation : Type 0 where
  before after concurrent equal : VectorRelation

abbrev pub Clock : Type 0
Clock = Dict String ℕ

-- clock.get(node_id, 0)
abbrev pub counter : Clock → String → ℕ
counter c k = get_or k 0 c

pub increment : Clock → String → Clock
increment c node_id = put node_id (counter c node_id + 1) c

-- One round of the loop over `other.items()`.
pub merge : Clock → Clock → Clock
merge c [] = c
merge c ((node_id, n) ∷ other) = merge (put node_id (max (counter c node_id) n) c) other

pub merge_from : Clock → List Clock → Clock
merge_from merged [] = merged
merge_from merged (c ∷ rest) = merge_from (merge merged c) rest

pub merge_all : List Clock → Clock
unfolding merge_from
merge_all clocks = merge_from [] clocks

-- set(self.clock) | set(other)
unfoldable pub key_union : Clock → Clock → List String
key_union c d = keys c ++ keep (λ k. not (contains (keys c) k)) (keys d)

-- The loop over the keys, with its two flags: the left clock is ahead somewhere, and the right one.
unfoldable pub dominates : Clock → Clock → List String → Bool → Bool → Bool × Bool
dominates c d [] a b = (a, b)
dominates c d (k ∷ ks) a b =
    dominates c d ks
      (if ltb (counter c k) (counter d k)
        then a
        else if ltb (counter d k) (counter c k)
        then true
        else a)
      (if ltb (counter c k) (counter d k) then true else b)

unfoldable pub verdict : Bool × Bool → VectorRelation
verdict (a, b) =
    if a && not b
    then after
    else if b && not a
    then before
    else if not a && not b
    then equal
    else concurrent

unfoldable pub relation : Clock → Clock → VectorRelation
unfolding dominates verdict key_union
relation c d = verdict (dominates c d (key_union c d) false false)

unfoldable pub is_before : VectorRelation → Bool
is_before before = true
is_before _ = false

unfoldable pub happened_before : Clock → Clock → Bool
unfolding is_before
happened_before c d = is_before (relation c d)

-- sum(clock.values())
pub lamport : Clock → ℕ
lamport [] = 0
lamport ((_, n) ∷ c) = n + lamport c

-- -1, 0 and 1 of `compare_lamport`
pub data Sign : Type 0 where
  minus zero_sign plus : Sign

pub compare_lamport : Clock → Clock → Sign
unfolding lamport
compare_lamport c d =
    if ltb (lamport c) (lamport d)
    then minus
    else if ltb (lamport d) (lamport c)
    then plus
    else zero_sign
