-- ===== src/Consensus/Fame/Votes.antt =====
-- Two supermajorities of the members meet, so the votes of a round after the first are all on one
-- side, and only the first round of votes can decide.
use hashgraph.Prelude.{
  ℕ, ◌+◌, ◌≤◌, ◌<◌, ◌≡◌, refl, String, Bool, true, Option, List, [], ◌∷◌, arith, string_eq, nat_eq,
  leb, contains, length, nodup, keep, count_if, Bool-cases, ◌⊎◌, inl, inr, count_if_disjoint,
  length_subset, contains-keep, nodup-keep,
}
use hashgraph.Dict.{keys}
use hashgraph.Consensus.Membership.{supermajority_threshold}
use hashgraph.Consensus.Rounds.{Witnesses}
use hashgraph.Consensus.Fame.{
  Ballot, is_yes, is_no, yes_total, no_total, first_votes, is_visible, cast_vote, cast_votes,
}

count_if-keep-le :
    (p q : String × Option Bool → Bool) (xs : Ballot) → count_if p (keep q xs) ≤ count_if p xs
unfolding count_if keep
count_if-keep-le p q [] = omega arith
count_if-keep-le p q (x ∷ xs) = ground (arith, count_if-keep-le p q xs)

-- Nobody votes both ways.
pub yes-add-no : (votes : Ballot) → yes_total votes + no_total votes ≤ length votes
unfolding yes_total no_total
yes-add-no votes = count_if_disjoint (λ e. is_yes e.1) (λ e. is_no e.1) votes (λ e. ground arith)

-- Two thresholds are more than all members.
pub two_thresholds : (n : ℕ) → n < supermajority_threshold n + supermajority_threshold n
unfolding supermajority_threshold
two_thresholds n = omega arith

pub threshold_pos : (n : ℕ) → 0 < supermajority_threshold n
unfolding supermajority_threshold
threshold_pos n = omega arith

module _ (can_see : String → String → Bool) (members : List String) where
  -- No voter stands twice on a ballot, and voters are members.
  abbrev pub IsBallot : Ballot → Type 0
  IsBallot votes =
      (nodup (keys votes) ≡ true)
      × ((k : String) → contains (keys votes) k ≡ true → contains members k ≡ true)

  pub IsBallot-length : (votes : Ballot) → IsBallot votes → length votes ≤ length members
  IsBallot-length votes (once, inside) =
      omega (arith, length_subset (keys votes) members once inside, length-keys votes)
    where
      length-keys : (d : Ballot) → length (keys d) ≡ length d
      length-keys [] = refl
      length-keys (e ∷ d) = omega (arith, length-keys d)

  keys-first_votes :
      (w : String) (next : Witnesses)
      → keys (first_votes can_see members w next) ≡ keep (contains members) (keys next)
  unfolding first_votes keep
  keys-first_votes w [] = refl
  keys-first_votes w ((c, x) ∷ next) = ground (arith, keys-first_votes w next)

  keys-cast_votes :
      (prev : Ballot) (previous later : Witnesses)
      → keys (cast_votes can_see members prev previous later) ≡ keep (contains members) (keys later)
  unfolding cast_votes keep
  keys-cast_votes prev previous [] = refl
  keys-cast_votes prev previous ((c, x) ∷ later) =
      ground (arith, keys-cast_votes prev previous later)

  kept_members :
      (ws : Witnesses) (k : String)
      → contains (keep (contains members) (keys ws)) k ≡ true
      → contains members k ≡ true
  kept_members ws k h = ground (arith, contains-keep (contains members) (keys ws) k)

  pub first_votes-IsBallot :
      (w : String) (next : Witnesses)
      → nodup (keys next) ≡ true
      → IsBallot (first_votes can_see members w next)
  first_votes-IsBallot w next h =
      rw (keys-first_votes w next) (nodup-keep (contains members) (keys next) h, kept_members next)

  pub cast_votes-IsBallot :
      (prev : Ballot) (previous later : Witnesses)
      → nodup (keys later) ≡ true
      → IsBallot (cast_votes can_see members prev previous later)
  cast_votes-IsBallot prev previous later h =
      rw (keys-cast_votes prev previous later)
        (nodup-keep (contains members) (keys later) h, kept_members later)

  abbrev pub threshold : ℕ
  threshold = supermajority_threshold (length members)

  -- Without a supermajority of yes, or of no, nobody in the next round votes so.
  pub few_yes :
      (prev : Ballot) (previous later : Witnesses)
      → yes_total prev < threshold
      → yes_total (cast_votes can_see members prev previous later) ≡ 0
  unfolding yes_total cast_votes cast_vote count_if
  few_yes prev previous [] h = refl
  few_yes prev previous ((c, x) ∷ later) h = ground (
    arith,
    few_yes prev previous later h,
    count_if-keep-le (λ e. is_yes e.1) (is_visible can_see members previous x) prev,
  )

  pub few_no :
      (prev : Ballot) (previous later : Witnesses)
      → no_total prev < threshold
      → no_total (cast_votes can_see members prev previous later) ≡ 0
  unfolding no_total cast_votes cast_vote count_if
  few_no prev previous [] h = refl
  few_no prev previous ((c, x) ∷ later) h = ground (
    arith,
    few_no prev previous later h,
    count_if-keep-le (λ e. is_no e.1) (is_visible can_see members previous x) prev,
  )

  -- Where in the round before only members voted, each once, any two voters of the next round who
  -- decide on a vote decide on the same one: either nobody votes yes or nobody votes no.
  pub cast_votes_agree :
      (prev : Ballot) (previous later : Witnesses)
      → IsBallot prev
      → (yes_total (cast_votes can_see members prev previous later) ≡ 0)
        ⊎ (no_total (cast_votes can_see members prev previous later) ≡ 0)
  cast_votes_agree prev previous later b = elim (Bool-cases (leb threshold (yes_total prev))) [
    | inl many ↦ inr (
        few_no prev previous later (
          ground (arith, IsBallot-length prev b, yes-add-no prev, two_thresholds (length members))))
    | inr few ↦ inl (few_yes prev previous later (ground arith))
  ]
