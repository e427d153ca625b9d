-- ===== src/Consensus/Rounds/Laws.antt =====
-- Rounds never fall along parent links, and a creator has one witness in a round.
use hashgraph.Prelude.{
  ℕ, ◌+◌, ◌≤◌, ◌≡◌, refl, String, Bool, true, false, ◌&&◌, not, Option, none, some, List, [], ◌∷◌,
  arith, ◌==◌, string_eq, nat_eq, if◌then◌else◌, contains, Bool-cases, beq_self, inl, inr,
}
use hashgraph.Dict.{Dict, get, get_or, has, get-put, get_or-put, get-put_self}
use hashgraph.Models.{Event, creator_of}
use hashgraph.Consensus.Ancestry.{Events}
use hashgraph.Consensus.Rounds.{RoundState, parent_rounds, max_of, round_of, enter}

pub max_of-parent_rounds :
    (rounds : Dict String ℕ) (ps : List String) (p : String) (r : ℕ)
    → contains ps p ≡ true
    → get p rounds ≡ some r
    → r ≤ max_of (parent_rounds rounds ps)
unfolding max_of parent_rounds contains
max_of-parent_rounds rounds [] p r h k = cc
max_of-parent_rounds rounds (q ∷ ps) p r h k = elim (Bool-cases (string_eq.beq q p)) [
  | inl e ↦
      let same = (string_eq.beq_iff q p).0 e in ground (arith, max_of-parent_rounds rounds ps p r)
  | inr e ↦ ground (arith, max_of-parent_rounds rounds ps p r)
]

module _ (can_see : String → String → Bool) (by_id : Events) (members : List String) where
  pub round_of-base :
      (s : RoundState) (e : Event)
      → (max_of (parent_rounds s.rounds e.parents) ≤ round_of can_see by_id members s e)
        × (round_of can_see by_id members s e ≤ max_of (parent_rounds s.rounds e.parents) + 1)
  unfolding round_of
  round_of-base s e = ground arith

-- What the state holds of an event that has been processed: a round, the creator's witness of that
-- round, and a flag that says whether this is the event itself.
pub record IsRecorded (s : RoundState) (e : Event) : Type 0 where
  pub round : ℕ
  pub witness : String
  pub at_round : get e.id s.rounds ≡ some round
  pub chosen : get (creator_of e) (get_or round [] s.witnesses_by_round) ≡ some witness
  pub flag : get e.id s.witness_flags ≡ some (witness == e.id)

-- The witnesses of a round are events of that round.
abbrev pub WitnessesInRound : RoundState → Type 0
WitnessesInRound s =
    (r : ℕ) (c w : String)
    → get c (get_or r [] s.witnesses_by_round) ≡ some w
    → get w s.rounds ≡ some r

witness-ne :
    (s : RoundState) (e : Event) (r : ℕ) (c w : String)
    → WitnessesInRound s
    → get e.id s.rounds ≡ none
    → get c (get_or r [] s.witnesses_by_round) ≡ some w
    → (w == e.id) ≡ false
witness-ne s e r c w inv new h = ground (arith, inv r c w h, string_eq.beq_iff w e.id)

pub enter-rounds :
    (s : RoundState) (e : Event) (r : ℕ) (k : String)
    → get k (enter s e r).rounds ≡ (if e.id == k then some r else get k s.rounds)
unfolding enter
enter-rounds s e r k = get-put e.id k r s.rounds

enter-witnesses :
    (s : RoundState) (e : Event) (r q : ℕ) (c : String)
    → get c (get_or q [] (enter s e r).witnesses_by_round) ≡ (
        if nat_eq.beq r q && creator_of e == c && not (has c (get_or q [] s.witnesses_by_round))
        then some e.id
        else get c (get_or q [] s.witnesses_by_round))
unfolding enter has
enter-witnesses s e r q c = elim (Bool-cases (nat_eq.beq r q)) [
  | inl same ↦
      let r_is_q = (nat_eq.beq_iff r q).0 same in
      rw (← r_is_q) (
        rw (get_or-put r r _ [] s.witnesses_by_round, beq_self r)
          (ground (
            arith,
            get-put (creator_of e) c e.id (get_or r [] s.witnesses_by_round),
            string_eq.beq_iff (creator_of e) c,
          )))
  | inr other ↦ rw (get_or-put r q _ [] s.witnesses_by_round, other)
]

pub enter-IsRecorded :
    (s : RoundState) (e : Event) (r : ℕ)
    → WitnessesInRound s
    → get e.id s.rounds ≡ none
    → IsRecorded (enter s e r) e
unfolding has
enter-IsRecorded s e r inv new = go (get (creator_of e) (get_or r [] s.witnesses_by_round)) refl
  where
    flag_of :
        get e.id (enter s e r).witness_flags
        ≡ some (not (has (creator_of e) (get_or r [] s.witnesses_by_round)))
    flag_of = unfold enter in get-put_self e.id _ s.witness_flags

    go :
        (found : Option String)
        → get (creator_of e) (get_or r [] s.witnesses_by_round) ≡ found
        → IsRecorded (enter s e r) e
    go none h = record {
      round = r;
      witness = e.id;
      at_round = ground (arith, enter-rounds s e r e.id, string_eq.beq_iff e.id e.id);
      chosen = ground (
        arith,
        enter-witnesses s e r r (creator_of e),
        string_eq.beq_iff (creator_of e) (creator_of e),
      );
      flag = ground (arith, flag_of, string_eq.beq_iff e.id e.id);
    }
    go (some w) h = record {
      round = r;
      witness = w;
      at_round = ground (arith, enter-rounds s e r e.id, string_eq.beq_iff e.id e.id);
      chosen = ground (
        arith,
        enter-witnesses s e r r (creator_of e),
        string_eq.beq_iff (creator_of e) (creator_of e),
      );
      flag = ground (arith, flag_of, witness-ne s e r (creator_of e) w inv new h);
    }

pub enter-flags :
    (s : RoundState) (e : Event) (r : ℕ) (k : String)
    → get k (enter s e r).witness_flags ≡ (
        if e.id == k
        then some (not (has (creator_of e) (get_or r [] s.witnesses_by_round)))
        else get k s.witness_flags)
unfolding enter
enter-flags s e r k = get-put e.id k _ s.witness_flags

pub enter-keeps :
    (s : RoundState) (e d : Event) (r : ℕ)
    → get e.id s.rounds ≡ none
    → IsRecorded s d
    → IsRecorded (enter s e r) d
unfolding has
enter-keeps s e d r new rec = record {
  round = rec.round;
  witness = rec.witness;
  at_round = ground (arith, enter-rounds s e r d.id, rec.at_round, string_eq.beq_iff e.id d.id);
  chosen = ground (arith, enter-witnesses s e r rec.round (creator_of d), rec.chosen);
  flag =
      ground (arith, enter-flags s e r d.id, rec.flag, rec.at_round, string_eq.beq_iff e.id d.id);
}

pub enter-WitnessesInRound :
    (s : RoundState) (e : Event) (r : ℕ)
    → get e.id s.rounds ≡ none
    → WitnessesInRound s
    → WitnessesInRound (enter s e r)
unfolding has
enter-WitnessesInRound s e r new inv q c w h = ground (
  arith,
  enter-witnesses s e r q c,
  enter-rounds s e r w,
  inv q c w,
  string_eq.beq_iff e.id w,
  nat_eq.beq_iff r q,
)
