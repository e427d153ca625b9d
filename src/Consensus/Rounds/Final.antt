-- ===== src/Consensus/Rounds/Final.antt =====
-- What the pass over the events leaves: the rounds, the witnesses and the flags.
use mathlib.Core.List.{Memᴰ}
use hashgraph.Prelude.{
  ℕ, ◌+◌, ◌≤◌, ◌≡◌, refl, String, Bool, true, false, none, some, List, [], ◌∷◌, ◌++◌, arith,
  string_eq, nat_eq, contains, nodup, map, ◌∙◌, sym, subst, ap₂,
}
use hashgraph.Dict.{get, get_or}
use hashgraph.Models.{Event, creator_of}
use hashgraph.Consensus.Ancestry.{Events}
use hashgraph.Consensus.Rounds.{
  RoundState, fresh, parent_rounds, max_of, round_of, enter, assign_round, assign_rounds,
}
use hashgraph.Consensus.Rounds.Laws.{
  IsRecorded, WitnessesInRound, enter-IsRecorded, enter-keeps, enter-WitnessesInRound, enter-rounds,
  enter-flags, round_of-base, max_of-parent_rounds,
}

abbrev pub ids : List Event → List String
ids topo = map (λ e. e.id) topo

-- None of the events has been processed.
abbrev AllNew : RoundState → List Event → Type 0
AllNew s [] = Unit
AllNew s (e ∷ topo) = (get e.id s.rounds ≡ none) × AllNew s topo

AllNew-enter :
    (s : RoundState) (e : Event) (r : ℕ) (topo : List Event)
    → contains (ids topo) e.id ≡ false
    → AllNew s topo
    → AllNew (enter s e r) topo
unfolding contains
AllNew-enter s e r [] h a = tt
AllNew-enter s e r (d ∷ topo) h a = (
  ground (arith, enter-rounds s e r d.id, string_eq.beq_iff e.id d.id, string_eq.beq_iff d.id e.id),
  AllNew-enter s e r topo (ground arith) a.1,
)

AllNew-fresh : (topo : List Event) → AllNew fresh topo
unfolding get
AllNew-fresh [] = tt
AllNew-fresh (e ∷ topo) = (refl, AllNew-fresh topo)

module _ (can_see : String → String → Bool) (by_id : Events) (members : List String) where
  abbrev run : RoundState → List Event → RoundState
  run s topo = assign_rounds can_see by_id members s topo

  pub run-append : (s : RoundState) (xs ys : List Event) → run s (xs ++ ys) ≡ run (run s xs) ys
  unfolding assign_rounds
  run-append s [] ys = refl
  run-append s (x ∷ xs) ys = run-append (assign_round can_see by_id members s x) xs ys

  run-cons :
      (s : RoundState) (e : Event) (topo : List Event)
      → run s (e ∷ topo) ≡ run (enter s e (round_of can_see by_id members s e)) topo
  unfolding assign_rounds
  run-cons s e topo = refl

  run-keeps :
      (s : RoundState) (topo : List Event) (d : Event)
      → nodup (ids topo) ≡ true
      → AllNew s topo
      → IsRecorded s d
      → IsRecorded (run s topo) d
  unfolding assign_rounds nodup
  run-keeps s [] d h new rec = rec
  run-keeps s (e ∷ topo) d h new rec =
      let r = round_of can_see by_id members s e in
      run-keeps (enter s e r) topo d (ground arith) (AllNew-enter s e r topo (ground arith) new.1)
        (enter-keeps s e d r new.0 rec)

  run-IsRecorded :
      (s : RoundState) (topo : List Event) (d : Event)
      → nodup (ids topo) ≡ true
      → AllNew s topo
      → WitnessesInRound s
      → Memᴰ d topo
      → IsRecorded (run s topo) d
  unfolding assign_rounds nodup
  run-IsRecorded s [] d h new inv m = elim m [ ]
  run-IsRecorded s (e ∷ topo) d h new inv (Memᴰ.head same) =
      let r = round_of can_see by_id members s e in
      run-keeps (enter s e r) topo d (ground arith) (AllNew-enter s e r topo (ground arith) new.1)
        (subst (λ x. IsRecorded (enter s e r) x) (sym same) (enter-IsRecorded s e r inv new.0))
  run-IsRecorded s (e ∷ topo) d h new inv (Memᴰ.tail m) =
      let r = round_of can_see by_id members s e in
      run-IsRecorded (enter s e r) topo d (ground arith)
        (AllNew-enter s e r topo (ground arith) new.1) (enter-WitnessesInRound s e r new.0 inv) m

  WitnessesInRound-fresh : WitnessesInRound fresh
  unfolding get get_or
  WitnessesInRound-fresh r c w h = cc

  -- With distinct ids, every event has a round, its creator has a witness in that round, and the event's flag says
  -- whether it is that witness.
  pub assign_rounds-IsRecorded :
      (topo : List Event) (d : Event)
      → nodup (ids topo) ≡ true
      → Memᴰ d topo
      → IsRecorded (assign_rounds can_see by_id members fresh topo) d
  assign_rounds-IsRecorded topo d h m =
      run-IsRecorded fresh topo d h (AllNew-fresh topo) WitnessesInRound-fresh m

  -- With distinct ids, two events of one creator that are witnesses of one round are the same event.
  pub one_witness :
      (topo : List Event) (d e : Event)
      → nodup (ids topo) ≡ true
      → Memᴰ d topo
      → Memᴰ e topo
      → creator_of d ≡ creator_of e
      → get d.id (assign_rounds can_see by_id members fresh topo).rounds
        ≡ get e.id (assign_rounds can_see by_id members fresh topo).rounds
      → get d.id (assign_rounds can_see by_id members fresh topo).witness_flags ≡ some true
      → get e.id (assign_rounds can_see by_id members fresh topo).witness_flags ≡ some true
      → d.id ≡ e.id
  one_witness topo d e h md me same_creator same_round wd we =
      let s = assign_rounds can_see by_id members fresh topo in
      let p = assign_rounds-IsRecorded topo d h md in
      let q = assign_rounds-IsRecorded topo e h me in
      let round_eq : p.round ≡ q.round = cc (p.at_round, q.at_round, same_round) in
      let witness_eq : p.witness ≡ q.witness = cc (
        p.chosen,
        q.chosen,
        ap₂ (λ c r. get c (get_or r [] s.witnesses_by_round)) same_creator round_eq,
      ) in
      ground (
        arith,
        p.flag,
        q.flag,
        witness_eq,
        string_eq.beq_iff p.witness d.id,
        string_eq.beq_iff q.witness e.id,
      )

  run-rounds_keep :
      (s : RoundState) (topo : List Event) (k : String)
      → contains (ids topo) k ≡ false
      → (get k (run s topo).rounds ≡ get k s.rounds)
        × (get k (run s topo).witness_flags ≡ get k s.witness_flags)
  unfolding assign_rounds contains
  run-rounds_keep s [] k h = (refl, refl)
  run-rounds_keep s (e ∷ topo) k h =
      let r = round_of can_see by_id members s e in
      let (rounds_keep, flags_keep) = run-rounds_keep (enter s e r) topo k (ground arith) in
      (
        ground (arith, rounds_keep, enter-rounds s e r k),
        ground (arith, flags_keep, enter-flags s e r k),
      )

  -- With one graph, events that are appended to the order leave the entries of the others.
  pub assign_rounds-append :
      (pre post : List Event) (k : String)
      → contains (ids post) k ≡ false
      → (get k (assign_rounds can_see by_id members fresh (pre ++ post)).rounds
          ≡ get k (assign_rounds can_see by_id members fresh pre).rounds)
        × (get k (assign_rounds can_see by_id members fresh (pre ++ post)).witness_flags
            ≡ get k (assign_rounds can_see by_id members fresh pre).witness_flags)
  assign_rounds-append pre post k h =
      rw (run-append fresh pre post) (run-rounds_keep (run fresh pre) post k h)

  -- In an order where each event stands once and behind its parents, the round of an event is at
  -- least that of each parent, and at most one more than the largest of them.
  pub rounds_along_parents :
      (pre post : List Event) (e : Event) (p : String) (r : ℕ)
      → contains (ids post) e.id ≡ false
      → contains (ids (e ∷ post)) p ≡ false
      → contains e.parents p ≡ true
      → get p (assign_rounds can_see by_id members fresh (pre ++ e ∷ post)).rounds ≡ some r
      → (q : ℕ) × (get e.id (assign_rounds can_see by_id members fresh (pre ++ e ∷ post)).rounds
          ≡ some q)
        × (r ≤ q)
        × (q
            ≤ max_of
                (parent_rounds (assign_rounds can_see by_id members fresh pre).rounds e.parents)
              + 1)
  unfolding contains
  rounds_along_parents pre post e p r last later link at_p =
      let s = run fresh pre in
      let q = round_of can_see by_id members s e in
      let kept = run-rounds_keep (enter s e q) post in
      let (p_keeps, _) = run-rounds_keep s (e ∷ post) p later in
      let (e_keeps, _) = kept e.id last in
      let whole = run-append fresh pre (e ∷ post) in
      let p_before : get p s.rounds ≡ some r = sym p_keeps ∙ rw whole at at_p in
      let bounds = round_of-base can_see by_id members s e in
      (
        q,
        rw whole (
            rw (run-cons s e post)
              (rw e_keeps (ground (arith, enter-rounds s e q e.id, string_eq.beq_iff e.id e.id)))),
        omega (arith, max_of-parent_rounds s.rounds e.parents p r link p_before, bounds.0),
        bounds.1,
      )
