-- ===== src/Consensus/Fame/Decisions.antt =====
-- When and how the fame of a witness is decided.
use hashgraph.Prelude.{
  ℕ, ◌≤◌, ◌<◌, ◌≡◌, ◌≢◌, refl, String, Bool, true, false, Option, none, some, List, [], ◌∷◌, ◌++◌,
  arith, string_eq, nat_eq, nat_ord, leb, if◌then◌else◌, length, Bool-cases, inl, inr, sort_on,
  length-append,
}
use hashgraph.Models.{pending, vote, coin_surrogate}
use hashgraph.Consensus.Fame.{
  Ballot, History, yes_total, no_total, Decision, undecided, tally, count_votes, last_round,
  coin_choice, after_votes, resolve_fame,
}

-- The first round, in the order given, with a supermajority on one side, and that side.
unfoldable pub first_decisive : ℕ → List (ℕ × Ballot) → Option (ℕ × Bool)
first_decisive threshold [] = none
first_decisive threshold ((r, votes) ∷ rest) =
    let later = first_decisive threshold rest in
    if leb threshold (yes_total votes)
    then some (r, true)
    else if leb threshold (no_total votes)
    then some (r, false)
    else later

-- What a decision says, by the first decisive round, the number of rounds and the coin.
abbrev pub Says : Option (ℕ × Bool) → Bool → (ℕ × Bool) → Decision → Type 0
Says (some (r, side)) many coin d =
    (d.decided ≡ true)
    × (d.famous ≡ side)
    × (d.decision_round ≡ some r)
    × (d.decision_kind ≡ vote)
    × (d.coin_used ≡ false)
Says none true (r, side) d =
    (d.decided ≡ true)
    × (d.famous ≡ side)
    × (d.decision_round ≡ some r)
    × (d.decision_kind ≡ coin_surrogate)
    × (d.coin_used ≡ true)
Says none false coin d =
    (d.decided ≡ false)
    × (d.famous ≡ false)
    × (d.decision_round ≡ none)
    × (d.decision_kind ≡ pending)
    × (d.coin_used ≡ false)

-- The fields that the loop leaves alone until it returns.
abbrev Open : Decision → Type 0
Open d =
    (d.decided ≡ false)
    × (d.famous ≡ false)
    × (d.decision_round ≡ none)
    × (d.decision_kind ≡ pending)
    × (d.coin_used ≡ false)

module _ (sha256 : String → List ℕ) (w : String) (history : History) (threshold : ℕ) where
  resolve_from :
      (d : Decision) (rounds : List (ℕ × Ballot))
      → Open d
      → Says
          (first_decisive threshold rounds)
          (leb 2 (length history))
          (last_round history, coin_choice sha256 w (last_round history))
          (after_votes sha256 w history (count_votes threshold d rounds))
  unfolding first_decisive count_votes after_votes
  resolve_from d [] o = elim (Bool-cases (leb 2 (length history))) [
    | inl many ↦ rw many (refl, refl, refl, refl, refl)
    | inr few ↦ rw few o
  ]
  resolve_from d ((r, votes) ∷ rest) o = elim (Bool-cases (leb threshold (yes_total votes))) [
    | inl yes_wins ↦ rw yes_wins (refl, refl, refl, refl, refl)
    | inr no_yes ↦ elim (Bool-cases (leb threshold (no_total votes))) [
      | inl no_wins ↦ rw (no_yes, no_wins) (refl, refl, refl, refl, refl)
      | inr neither ↦ rw (no_yes, neither) (resolve_from (tally d r votes) rest o)
    ]
  ]

-- The decision on a witness: by the first round, in ascending order, in which one side has the
-- threshold of votes; else by the coin of the last round, where there are two rounds or more;
-- else there is none.
pub resolve_fame-Says :
    (sha256 : String → List ℕ) (w : String) (history : History) (threshold : ℕ)
    → Says
        (first_decisive threshold (sort_on (λ e. e.0) history))
        (leb 2 (length history))
        (last_round history, coin_choice sha256 w (last_round history))
        (resolve_fame sha256 w history threshold)
unfolding resolve_fame
resolve_fame-Says sha256 w history threshold =
    resolve_from sha256 w history threshold undecided (sort_on (λ e. e.0) history)
      (refl, refl, refl, refl, refl)

last_round-snoc :
    (history : History) (r : ℕ) (votes : Ballot)
    → last_round history < r
    → last_round (history ++ (r, votes) ∷ []) ≡ r
unfolding last_round
last_round-snoc [] r votes h = omega arith
last_round-snoc ((q, _) ∷ rest) r votes h =
    omega (arith, last_round-snoc rest r votes (omega arith))

-- With two rounds of votes or more and none that decides, the coin is drawn again with another, later
-- round that does not decide: where the two coins differ, a witness whose fame was decided turns
-- over.
pub coin_reversal :
    (sha256 : String → List ℕ) (w : String) (history : History) (r : ℕ) (votes : Ballot)
    (threshold : ℕ)
    → 2 ≤ length history
    → first_decisive threshold (sort_on (λ e. e.0) history) ≡ none
    → first_decisive threshold (sort_on (λ e. e.0) (history ++ (r, votes) ∷ [])) ≡ none
    → last_round history < r
    → coin_choice sha256 w (last_round history) ≢ coin_choice sha256 w r
    → ((resolve_fame sha256 w history threshold).decided ≡ true)
      × ((resolve_fame sha256 w (history ++ (r, votes) ∷ []) threshold).decided ≡ true)
      × ((resolve_fame sha256 w history threshold).famous
          ≢ (resolve_fame sha256 w (history ++ (r, votes) ∷ []) threshold).famous)
coin_reversal sha256 w history r votes threshold many unsettled unsettled' newer differ =
    let many' : leb 2 (length history) ≡ true = ground arith in
    let more : leb 2 (length (history ++ (r, votes) ∷ [])) ≡ true =
      ground (arith, length-append history ((r, votes) ∷ [])) in
    let before : Says none true (last_round history, coin_choice sha256 w (last_round history))
        (resolve_fame sha256 w history threshold) =
      rw (unsettled, many') at (resolve_fame-Says sha256 w history threshold) in
    let after : Says none true (r, coin_choice sha256 w r)
        (resolve_fame sha256 w (history ++ (r, votes) ∷ []) threshold) =
      rw (unsettled', more, last_round-snoc history r votes newer) at
        (resolve_fame-Says sha256 w (history ++ (r, votes) ∷ []) threshold) in
    (before.0, after.0, λ same. differ (cc (before.1, after.1)))
