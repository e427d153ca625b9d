-- ===== src/Consensus/Fame/FirstRound.antt =====
-- Which round of votes can decide.
use hashgraph.Prelude.{
  ℕ, ◌+◌, ◌-◌, ◌≤◌, ◌<◌, ◌≡◌, refl, String, Bool, true, false, Option, none, some, List, [], ◌∷◌,
  arith, string_eq, nat_eq, nat_ord, leb, length, count_if, Bool-cases, ◌⊎◌, inl, inr, is_empty,
  AllAbove, IsSortedOn, sort_on, sort_on_sorted,
}
use hashgraph.Dict.{get_or}
use hashgraph.Models.{vote}
use hashgraph.Consensus.Membership.{supermajority_threshold}
use hashgraph.Consensus.Rounds.{Witnesses, WitnessesByRound}
use hashgraph.Consensus.Fame.{
  Ballot, History, yes_total, no_total, first_votes, cast_votes, vote_rounds, witness_history,
  Decision, resolve_fame, last_round, coin_choice,
}
use hashgraph.Consensus.Fame.Votes.{few_yes, few_no, threshold_pos}
use hashgraph.Consensus.Fame.Decisions.{first_decisive, Says, resolve_fame-Says}

blank_totals :
    (votes : Ballot) → is_empty votes ≡ true → (yes_total votes ≡ 0) × (no_total votes ≡ 0)
unfolding yes_total no_total count_if
blank_totals [] h = (refl, refl)
blank_totals (e ∷ votes) h = cc

abbrev AllBelow : (Ballot → ℕ) → ℕ → History → Type 0
AllBelow total n [] = Unit
AllBelow total n ((r, votes) ∷ rest) = (total votes < n) × AllBelow total n rest

module _ (can_see : String → String → Bool) (members : List String) (by_round : WitnessesByRound)
    (round_no : ℕ) where
  abbrev threshold : ℕ
  threshold = supermajority_threshold (length members)

  abbrev rounds_of : Ballot → List ℕ → History
  rounds_of = vote_rounds can_see members by_round round_no

  vote_rounds_below :
      (total : Ballot → ℕ)
      → ((prev : Ballot) (previous later : Witnesses)
          → total prev < threshold
          → total (cast_votes can_see members prev previous later) < threshold)
      → (prev : Ballot) (rounds : List ℕ) → total prev < threshold
      → AllBelow total threshold (rounds_of prev rounds)
  unfolding vote_rounds
  vote_rounds_below total step prev [] h = tt
  vote_rounds_below total step prev (q ∷ rounds) h =
      let current =
        cast_votes can_see members prev (get_or (q - 1) [] by_round) (get_or q [] by_round) in
      let low = step prev (get_or (q - 1) [] by_round) (get_or q [] by_round) h in
      let skipped = vote_rounds_below total step prev rounds h in
      let later = vote_rounds_below total step current rounds low in
      elim (Bool-cases (leb q (round_no + 1))) [
        | inl skip ↦ rw skip skipped
        | inr go ↦ elim (Bool-cases (is_empty current)) [
          | inl blank ↦ rw (go, blank) later
          | inr cast ↦ rw (go, cast) (low, later)
        ]
      ]

  not_decisive :
      (h : History)
      → AllBelow yes_total threshold h
      → AllBelow no_total threshold h
      → first_decisive threshold h ≡ none
  unfolding first_decisive
  not_decisive [] y n = refl
  not_decisive ((r, votes) ∷ rest) y n = ground (arith, y.0, n.0, not_decisive rest y.1 n.1)

  AllAbove-vote_rounds :
      (prev : Ballot) (b : ℕ) (rounds : List ℕ)
      → AllAbove (λ r. r) b rounds
      → AllAbove (λ (e : ℕ × Ballot). e.0) b (rounds_of prev rounds)
  unfolding vote_rounds
  AllAbove-vote_rounds prev b [] a = tt
  AllAbove-vote_rounds prev b (q ∷ rounds) a =
      let current =
        cast_votes can_see members prev (get_or (q - 1) [] by_round) (get_or q [] by_round) in
      let skipped = AllAbove-vote_rounds prev b rounds a.1 in
      let later = AllAbove-vote_rounds current b rounds a.1 in
      elim (Bool-cases (leb q (round_no + 1))) [
        | inl skip ↦ rw skip skipped
        | inr go ↦ elim (Bool-cases (is_empty current)) [
          | inl blank ↦ rw (go, blank) later
          | inr cast ↦ rw (go, cast) (a.0, later)
        ]
      ]

  -- The rounds after the first stand behind it, and in order.
  vote_rounds_sorted :
      (prev : Ballot) (rounds : List ℕ)
      → IsSortedOn (λ r. r) rounds
      → IsSortedOn (λ (e : ℕ × Ballot). e.0) (rounds_of prev rounds)
        × AllAbove (λ (e : ℕ × Ballot). e.0) (round_no + 1) (rounds_of prev rounds)
  unfolding vote_rounds
  vote_rounds_sorted prev [] s = (tt, tt)
  vote_rounds_sorted prev (q ∷ rounds) s =
      let current =
        cast_votes can_see members prev (get_or (q - 1) [] by_round) (get_or q [] by_round) in
      let (skipped, skipped_above) = vote_rounds_sorted prev rounds s.1 in
      let (later, later_above) = vote_rounds_sorted current rounds s.1 in
      elim (Bool-cases (leb q (round_no + 1))) [
        | inl skip ↦ rw skip (skipped, skipped_above)
        | inr go ↦ elim (Bool-cases (is_empty current)) [
          | inl blank ↦ rw (go, blank) (later, later_above)
          | inr cast ↦
              rw (go, cast)
                ((AllAbove-vote_rounds current q rounds s.0, later), (ground arith, later_above))
        ]
      ]

  module _ (sha256 : String → List ℕ) (ordered_rounds : List ℕ) (w : String)
      (ascending : IsSortedOn (λ r. r) ordered_rounds) where
    abbrev first : Ballot
    first = first_votes can_see members w (get_or (round_no + 1) [] by_round)

    abbrev history : History
    history = witness_history can_see members by_round round_no ordered_rounds w

    abbrev pub decision : Decision
    decision = resolve_fame sha256 w history threshold

    history_cases :
        (is_empty first ≡ true) × (history ≡ rounds_of first ordered_rounds)
        ⊎ (is_empty first ≡ false)
          × (history ≡ (round_no + 1, first) ∷ rounds_of first ordered_rounds)
    unfolding witness_history
    history_cases = elim (Bool-cases (is_empty first)) [
      | inl blank ↦ inl (blank, rw blank)
      | inr cast ↦ inr (cast, rw cast)
    ]

    in_order : sort_on (λ (e : ℕ × Ballot). e.0) history ≡ history
    in_order =
        let (sorted, above) = vote_rounds_sorted first ordered_rounds ascending in
        sort_on_sorted (λ (e : ℕ × Ballot). e.0) history
          (elim history_cases [ inl (_, e) ↦ rw e sorted | inr (_, e) ↦ rw e (above, sorted) ])

    rest_open :
        yes_total first < threshold
        → no_total first < threshold
        → first_decisive threshold (rounds_of first ordered_rounds) ≡ none
    rest_open y n =
        not_decisive (rounds_of first ordered_rounds)
          (vote_rounds_below yes_total
            (λ prev previous later h. omega (
              arith,
              few_yes can_see members prev previous later h,
              threshold_pos (length members),
            ))
            first ordered_rounds y)
          (vote_rounds_below no_total
            (λ prev previous later h.
              omega (
                arith,
                few_no can_see members prev previous later h,
                threshold_pos (length members),
              ))
            first ordered_rounds n)

    decided_at_first :
        (side : Bool)
        → (threshold ≤ yes_total first) ⊎ (threshold ≤ no_total first)
        → first_decisive threshold ((round_no + 1, first) ∷ rounds_of first ordered_rounds)
          ≡ some (round_no + 1, side)
        → first_decisive threshold history ≡ some (round_no + 1, side)
    decided_at_first side wins now = elim history_cases [
      | inl (blank, _) ↦
          absurd (omega (arith, blank_totals first blank, threshold_pos (length members)))
      | inr (_, e) ↦ rw e now
    ]

    first_decisive-cases :
        (first_decisive threshold history ≡ none)
        ⊎ ((side : Bool) × (first_decisive threshold history ≡ some (round_no + 1, side)))
    unfolding first_decisive
    first_decisive-cases = elim (Bool-cases (leb threshold (yes_total first))) [
      | inl yes_wins ↦ inr (true, decided_at_first true (ground arith) (rw yes_wins))
      | inr no_yes ↦ elim (Bool-cases (leb threshold (no_total first))) [
        | inl no_wins ↦ inr (false, decided_at_first false (ground arith) (rw (no_yes, no_wins)))
        | inr neither ↦
            let yes_low : yes_total first < threshold = ground arith in
            let no_low : no_total first < threshold = ground arith in
            inl (elim history_cases [
              | inl (_, e) ↦ rw e (rest_open yes_low no_low)
              | inr (_, e) ↦ rw e (rw (no_yes, neither, first_decisive) (rest_open yes_low no_low))
            ])
      ]
    ]

    -- A witness's fame is decided by vote in the first round of votes, the one after its own, or it
    -- is not decided by vote at all.
    pub vote_decides_first_round :
        decision.decision_kind ≡ vote → decision.decision_round ≡ some (round_no + 1)
    unfolding first_decisive
    vote_decides_first_round by_vote = elim first_decisive-cases [
      | inl open_history ↦ absurd (not_voted (leb 2 (length history)) (says open_history))
      | inr (side, e) ↦ (says e).2
    ]
      where
        says :
            {d : Option (ℕ × Bool)}
            → first_decisive threshold history ≡ d
            → Says d
                (leb 2 (length history))
                (last_round history, coin_choice sha256 w (last_round history))
                (resolve_fame sha256 w history threshold)
        says e = rw (in_order, e) at (resolve_fame-Says sha256 w history threshold)

        not_voted :
            (many : Bool)
            → Says none many
                (last_round history, coin_choice sha256 w (last_round history))
                (resolve_fame sha256 w history threshold)
            → ⊥
        not_voted true s = cc (s.3)
        not_voted false s = cc (s.3)
