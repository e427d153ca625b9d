-- ===== src/Consensus/Fame.antt =====
-- `_fame_vote_history_and_decisions` and `_resolve_fame_from_vote_history`: the witnesses of later
-- rounds vote on whether a witness is famous. A vote is yes, no or undecided (`None`).
pub mod Votes
pub mod Decisions
pub mod FirstRound
use hashgraph.Prelude.{
  ℕ, suc, ◌+◌, max, ◌≡◌, refl, String, Bool, true, false, ◌&&◌, ◌||◌, ◌-◌, ◌%◌, decimal, Option,
  none, some, List, [], ◌∷◌, ◌++◌, arith, ◌==◌, string_eq, nat_eq, nat_ord, leb, ltb, if◌then◌else◌,
  keep, contains, count_if, length, is_empty, sort_on, map,
}
use Prim.Native.String.{◌++◌ as ◌+++◌}
use hashgraph.Dict.{Dict, get, get_or, has, values, keys}
use hashgraph.Models.{DecisionKind, pending, vote, coin_surrogate}
use hashgraph.Consensus.Membership.{supermajority_threshold}
use hashgraph.Consensus.Rounds.{Witnesses, WitnessesByRound}

-- voter -> vote, and such a ballot for each round
abbrev pub Ballot : Type 0
Ballot = Dict String (Option Bool)

abbrev pub History : Type 0
History = Dict ℕ Ballot

abbrev pub is_yes : Option Bool → Bool
is_yes (some true) = true
is_yes _ = false

abbrev pub is_no : Option Bool → Bool
is_no (some false) = true
is_no _ = false

-- sum(1 for vote in votes.values() if vote is True), and is False
unfoldable pub yes_total : Ballot → ℕ
yes_total votes = count_if (λ e. is_yes e.1) votes

unfoldable pub no_total : Ballot → ℕ
no_total votes = count_if (λ e. is_no e.1) votes

module _ (can_see : String → String → Bool) (members : List String) where
  -- The witnesses of the next round vote for what they see.
  unfoldable pub first_votes : String → Witnesses → Ballot
  first_votes witness_id [] = []
  first_votes witness_id ((next_creator, next_witness_id) ∷ rest) =
      let votes = first_votes witness_id rest in
      if contains members next_creator
      then (next_creator, some (can_see next_witness_id witness_id)) ∷ votes
      else votes

  -- A vote that the later witness sees: cast by a member whose witness of the round before it sees.
  unfoldable pub is_visible : Witnesses → String → String × Option Bool → Bool
  is_visible previous later_witness_id (prev_creator, v) =
      contains members prev_creator
      && (has prev_creator previous
          && ((is_yes v || is_no v) && can_see later_witness_id (get_or prev_creator "" previous)))

  -- One later witness's vote: what a supermajority of the visible votes says, or `None`.
  unfoldable pub cast_vote : Ballot → Witnesses → String → Option Bool
  cast_vote previous_votes previous later_witness_id =
      let visible_votes = keep (is_visible previous later_witness_id) previous_votes in
      let threshold = supermajority_threshold (length members) in
      if leb threshold (yes_total visible_votes)
      then some true
      else if leb threshold (no_total visible_votes)
      then some false
      else none

  unfoldable pub cast_votes : Ballot → Witnesses → Witnesses → Ballot
  cast_votes previous_votes previous [] = []
  cast_votes previous_votes previous ((later_creator, later_witness_id) ∷ rest) =
      let votes = cast_votes previous_votes previous rest in
      if contains members later_creator
      then (later_creator, cast_vote previous_votes previous later_witness_id) ∷ votes
      else votes

  module _ (by_round : WitnessesByRound) (round_no : ℕ) where
    -- The loop over the later rounds. The rounds ascend, so each ballot is a new entry at the end.
    unfoldable pub vote_rounds : Ballot → List ℕ → History
    vote_rounds previous_votes [] = []
    vote_rounds previous_votes (later_round ∷ rounds) =
        let skipped = vote_rounds previous_votes rounds in
        let current_votes =
          cast_votes previous_votes (get_or (later_round - 1) [] by_round)
            (get_or later_round [] by_round) in
        let later = vote_rounds current_votes rounds in
        if leb later_round (round_no + 1)
        then skipped
        else if is_empty current_votes
        then later
        else (later_round, current_votes) ∷ later

    -- The whole history of one witness of round `round_no`.
    unfoldable pub witness_history : List ℕ → String → History
    witness_history ordered_rounds witness_id =
        let next_round = round_no + 1 in
        let previous_votes = first_votes witness_id (get_or next_round [] by_round) in
        let later = vote_rounds previous_votes ordered_rounds in
        if is_empty previous_votes then later else (next_round, previous_votes) ∷ later

pub record Decision : Type 0 where
  pub famous : Bool
  pub decided : Bool
  pub decision_round : Option ℕ
  pub decision_kind : DecisionKind
  pub needs_coin : Bool
  pub coin_used : Bool
  pub coin_round : Option ℕ
  pub vote_round : Option ℕ
  pub vote_yes : ℕ
  pub vote_no : ℕ

abbrev pub undecided : Decision
undecided = record {
  famous = false;
  decided = false;
  decision_round = none;
  decision_kind = pending;
  needs_coin = false;
  coin_used = false;
  coin_round = none;
  vote_round = none;
  vote_yes = 0;
  vote_no = 0;
}

-- decision["vote_round"] = ...; decision["vote_yes"] = ...; decision["vote_no"] = ...
abbrev pub tally : Decision → ℕ → Ballot → Decision
tally d vote_round votes = record d {
  vote_round = some vote_round;
  vote_yes = yes_total votes;
  vote_no = no_total votes;
}

abbrev pub settle : Decision → Bool → ℕ → Decision
settle d verdict vote_round = record d {
  famous = verdict;
  decided = true;
  decision_round = some vote_round;
  decision_kind = vote;
  needs_coin = false;
  coin_used = false;
  coin_round = none;
}

-- The loop over the rounds of votes: the decision, and whether it returned from within the loop.
unfoldable pub count_votes : ℕ → Decision → List (ℕ × Ballot) → Decision × Bool
count_votes threshold d [] = (d, false)
count_votes threshold d ((vote_round, votes) ∷ rest) =
    let d' = tally d vote_round votes in
    let later = count_votes threshold d' rest in
    if leb threshold (yes_total votes)
    then (settle d' true vote_round, true)
    else if leb threshold (no_total votes)
    then (settle d' false vote_round, true)
    else later

-- max(witness_history)
unfoldable pub last_round : History → ℕ
last_round [] = 0
last_round ((r, _) ∷ rest) = max r (last_round rest)

-- digest[0]; a digest is never empty
abbrev pub first_byte : List ℕ → ℕ
first_byte [] = 0
first_byte (b ∷ _) = b

-- `sha256` is hashlib's: the bytes of the digest of a text.
unfoldable pub coin_choice : (String → List ℕ) → String → ℕ → Bool
coin_choice sha256 witness_id vote_round =
    nat_eq.beq (first_byte (sha256 (witness_id +++ (":" +++ decimal vote_round))) % 2) 1

module _ (sha256 : String → List ℕ) where
  unfoldable pub after_votes : String → History → Decision × Bool → Decision
  after_votes witness_id history (d, true) = d
  after_votes witness_id history (d, false) =
      if leb 2 (length history)
      then record d {
        famous = coin_choice sha256 witness_id (last_round history);
        decided = true;
        decision_round = some (last_round history);
        decision_kind = coin_surrogate;
        needs_coin = false;
        coin_used = true;
        coin_round = some (last_round history);
      }
      else d

  unfoldable pub resolve_fame : String → History → ℕ → Decision
  unfolding count_votes after_votes
  resolve_fame witness_id history threshold =
      after_votes witness_id history (count_votes threshold undecided (sort_on (λ e. e.0) history))
