-- ===== src/Tests/Elections.antt =====
-- Runs of the theorems on votes, fame, the round received and the time.
use hashgraph.Prelude.{
  ℕ, ◌≤◌, ◌≡◌, ◌≢◌, ◌⊎◌, refl, true, false, none, some, [], ◌∷◌, ◌++◌, arith, string_eq, nat_eq,
  nat_ord, contains, nodup, count_if, leb, sort_on, decimal, strip, insert_on, IsSortedOn,
}
use hashgraph.Dict.{get, get_or, put, keys}
use hashgraph.Models.{Time}
use hashgraph.Consensus.Membership.{supermajority_threshold}
use hashgraph.Consensus.Fame.{
  Ballot, History, yes_total, no_total, cast_votes, first_votes, vote_rounds, witness_history,
  resolve_fame, last_round, coin_choice, count_votes, after_votes,
}
use hashgraph.Consensus.Fame.Votes.{IsBallot, cast_votes_agree}
use hashgraph.Consensus.Fame.Decisions.{first_decisive, Says, resolve_fame-Says, coin_reversal}
use hashgraph.Consensus.Fame.FirstRound.{decision, vote_decides_first_round}
use hashgraph.Consensus.Received.{receives, round_received}
use hashgraph.Consensus.Received.Laws.{IsLeast, round_received-IsLeast}
use hashgraph.Consensus.Timestamp.{observe, median, consensus_timestamp}
use hashgraph.Consensus.Timestamp.Laws.{IsBetween, consensus_timestamp_between}
use hashgraph.Tests.Samples.{three, everyone_sees, round_zero, round_one, by_round, digest, hops}

-- One yes, one no and one who does not know.
abbrev split : Ballot
split = ("a", some true) ∷ ("b", some false) ∷ ("c", none) ∷ []

split-IsBallot : IsBallot everyone_sees three split
unfolding nodup contains
split-IsBallot = (refl, λ k h. h)

cast_votes_agree_example :
    (yes_total (cast_votes everyone_sees three split round_zero round_one) ≡ 0)
    ⊎ (no_total (cast_votes everyone_sees three split round_zero round_one) ≡ 0)
cast_votes_agree_example =
    cast_votes_agree everyone_sees three split round_zero round_one split-IsBallot

ascending : IsSortedOn {A = ℕ} (λ r. r) (0 ∷ 1 ∷ [])
ascending = ((refl, tt), (tt, tt))

vote_decides_first_round_example :
    (decision everyone_sees three by_round 0 digest (0 ∷ 1 ∷ []) "a0" ascending).decision_round
    ≡ some 1
unfolding resolve_fame witness_history vote_rounds first_votes cast_votes count_votes after_votes
    yes_total no_total count_if supermajority_threshold sort_on insert_on get_or get contains
vote_decides_first_round_example =
    vote_decides_first_round everyone_sees three by_round 0 digest (0 ∷ 1 ∷ []) "a0" ascending refl

resolve_fame-Says_example :
    Says
      (first_decisive 3 (sort_on (λ e. e.0) ((1, split) ∷ [])))
      (leb 2 1)
      (last_round ((1, split) ∷ []), coin_choice digest "w" (last_round ((1, split) ∷ [])))
      (resolve_fame digest "w" ((1, split) ∷ []) 3)
resolve_fame-Says_example = resolve_fame-Says digest "w" ((1, split) ∷ []) 3

abbrev two_rounds : History
two_rounds = (1, split) ∷ (2, split) ∷ []

coin_reversal_example :
    ((resolve_fame digest "w" two_rounds 3).decided ≡ true)
    × ((resolve_fame digest "w" (two_rounds ++ (3, split) ∷ []) 3).decided ≡ true)
    × ((resolve_fame digest "w" two_rounds 3).famous
        ≢ (resolve_fame digest "w" (two_rounds ++ (3, split) ∷ []) 3).famous)
unfolding first_decisive yes_total no_total count_if sort_on insert_on last_round coin_choice
    decimal
coin_reversal_example =
    coin_reversal digest "w" two_rounds 3 split 3 (omega arith) refl refl (omega arith) (λ e. cc)

round_received-IsLeast_example :
    IsLeast
      (λ r. receives everyone_sees three by_round [] "a0" r)
      (keys by_round)
      (round_received everyone_sees three by_round [] "a0")
round_received-IsLeast_example = round_received-IsLeast everyone_sees three by_round [] "a0"

abbrev lower : Time → Time → Time
lower a b = a

lower-IsBetween : IsBetween 9 lower
lower-IsBetween = λ a b lo hi f la lb ah bh. (la, ah)

consensus_timestamp_between_example : (4 ≤ 5) × (5 ≤ 5)
unfolding consensus_timestamp observe median strip contains get put sort_on insert_on count_if
consensus_timestamp_between_example =
    consensus_timestamp_between 9 lower lower-IsBetween three 2 hops 4 5 5 (omega arith)
      (omega arith) refl
