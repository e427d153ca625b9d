-- ===== src/Checkpoint/Quorum.antt =====
-- When a quorum is reached, and how two quorums of the same members meet.
use hashgraph.Prelude.{
  ◌+◌, ◌*◌, ◌/◌, ◌≤◌, ◌<◌, ◌≡◌, ◌↔◌, String, Bool, true, ◌&&◌, not, List, [], ◌∷◌, arith, string_eq,
  leb, length, count_if, is_empty,
}
use hashgraph.Dict.{Dict, has}
use hashgraph.Checkpoint.{member_set, signed_count, is_quorum_reached}

-- A quorum is at least one member, and signatures of at least two thirds of the members.
pub is_quorum_reached_iff :
    (signatures : Dict String String) (members : List String)
    → (is_quorum_reached signatures members ≡ true) ↔ (
        (0 < length (member_set members))
        × (2 * length (member_set members) ≤ 3 * signed_count signatures (member_set members)))
unfolding is_quorum_reached
is_quorum_reached_iff signatures members = go (member_set members)
  where
    go :
        (ms : List String)
        → ((not (is_empty ms) && leb ((2 * length ms + 2) / 3) (signed_count signatures ms)) ≡ true)
          ↔ ((0 < length ms) × (2 * length ms ≤ 3 * signed_count signatures ms))
    go [] = (λ h. cc, λ h. absurd (omega arith))
    go (m ∷ ms) = (λ h. (omega arith, ground arith), λ h. ground arith)

-- Two tests that together cover much of a list share elements.
count_both :
    (p q : String → Bool) (xs : List String)
    → count_if p xs + count_if q xs ≤ length xs + count_if (λ x. p x && q x) xs
unfolding count_if
count_both p q [] = omega arith
count_both p q (x ∷ xs) = ground (arith, count_both p q xs)

-- Two quorums of the same members share at least a third of them: two checkpoints of one round with
-- different digests are confirmed only if a third of the members signed both.
pub quorum_overlap :
    (first second : Dict String String) (members : List String)
    → is_quorum_reached first members ≡ true
    → is_quorum_reached second members ≡ true
    → length (member_set members)
      ≤ 3 * count_if (λ m. has m first && has m second) (member_set members)
unfolding signed_count
quorum_overlap first second members h k =
    let ms = member_set members in
    omega (
      arith,
      (is_quorum_reached_iff first members).0 h,
      (is_quorum_reached_iff second members).0 k,
      count_both (λ m. has m first) (λ m. has m second) ms,
    )
