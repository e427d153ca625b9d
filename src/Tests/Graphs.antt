-- ===== src/Tests/Graphs.antt =====
-- Runs of the theorems on members, ancestors and rounds.
use mathlib.Core.List.{Memᴰ}
use hashgraph.Prelude.{
  ℕ, ◌+◌, ◌≤◌, ◌≡◌, ◌↔◌, ◌⊎◌, inl, inr, refl, sym, subst, String, true, some, List, [], ◌∷◌, ◌++◌,
  any, arith, ◌==◌, string_eq, nat_eq, contains, nodup, keep, set_of, Bool-cases,
}
use hashgraph.Dict.{get, get_or, put, has}
use hashgraph.Models.{Event, Time, creator_of}
use hashgraph.Consensus.Membership.{supermajority_threshold}
use hashgraph.Consensus.Ancestry.{can_see, ancestor_ids_cached}
use hashgraph.Consensus.Ancestry.Exact.{Ancestor, IsRanked, can_see_iff}
use hashgraph.Consensus.Ancestry.Cached.{Lists, CacheIsSound, ancestor_ids_cached_exact}
use hashgraph.Consensus.Rounds.{
  fresh, assign_rounds, parent_rounds, max_of, assign_round, round_of, enter, sees_supermajority,
  seen_creators, member_count,
}
use hashgraph.Consensus.Rounds.Laws.{IsRecorded}
use hashgraph.Consensus.Rounds.Final.{assign_rounds-IsRecorded, one_witness, rounds_along_parents}
use hashgraph.Consensus.Recompute.{assigned}
use hashgraph.Consensus.Recompute.Positions.{is_topological}
use hashgraph.Consensus.Recompute.Appended.{rounds_final}
use hashgraph.Tests.Samples.{
  digest, entries, by_id, depth, topo, first_event, second_event, everyone_sees, three,
}

ranked : IsRanked by_id depth
unfolding get contains
ranked k p event above h h' c = elim (Bool-cases ("a0" == k)) [
  | inl at_first ↦
      let e : first_event ≡ event = ground arith in
      let none_there : contains first_event.parents p ≡ true =
        subst (λ x. contains x.parents p ≡ true) (sym e) c in
      absurd (cc none_there)
  | inr not_first ↦ elim (Bool-cases ("b0" == k)) [
    | inl at_second ↦
        let e : second_event ≡ event = ground arith in
        let there : contains second_event.parents p ≡ true =
          subst (λ x. contains x.parents p ≡ true) (sym e) c in
        let is_a : "a0" ≡ p = ground (arith, string_eq.beq_iff "a0" p) in
        let is_b : "b0" ≡ k = (string_eq.beq_iff "b0" k).0 at_second in
        rw (← is_a, ← is_b) (omega arith)
    | inr neither ↦ ground arith
  ]
]

can_see_iff_example :
    (can_see by_id "b0" "a0" ≡ true) ↔ (◌≡◌ {A = String} "b0" "a0" ⊎ Ancestor by_id "a0" "b0")
can_see_iff_example = can_see_iff by_id depth "b0" "a0" ranked

ancestor_ids_cached_exact_example :
    Lists by_id (ancestor_ids_cached 2 by_id "b0" []).0 "b0"
    × CacheIsSound by_id (ancestor_ids_cached 2 by_id "b0" []).1
unfolding get
ancestor_ids_cached_exact_example =
    ancestor_ids_cached_exact by_id depth ranked 2 "b0" [] (omega arith) (λ k seen h. cc)

assign_rounds-IsRecorded_example :
    IsRecorded (assign_rounds everyone_sees by_id three fresh topo) second_event
unfolding nodup contains
assign_rounds-IsRecorded_example =
    assign_rounds-IsRecorded everyone_sees by_id three topo second_event refl
      (Memᴰ.tail (Memᴰ.head refl))

one_witness_example : second_event.id ≡ second_event.id
unfolding nodup contains assign_rounds assign_round round_of enter sees_supermajority seen_creators
    member_count get get_or put has keep set_of supermajority_threshold parent_rounds max_of
    creator_of
one_witness_example =
    one_witness everyone_sees by_id three topo second_event second_event refl
      (Memᴰ.tail (Memᴰ.head refl)) (Memᴰ.tail (Memᴰ.head refl)) refl refl refl refl

abbrev earlier_of : Time → Time → Time
earlier_of a b = a

abbrev first : List Event
first = first_event ∷ []

abbrev second : List Event
second = second_event ∷ []

rounds_final_example :
    (get "a0" (assigned digest earlier_of "a" entries [] (first ++ second)).rounds
      ≡ get "a0" (assigned digest earlier_of "a" entries [] first).rounds)
    × (get "a0" (assigned digest earlier_of "a" entries [] (first ++ second)).witness_flags
        ≡ get "a0" (assigned digest earlier_of "a" entries [] first).witness_flags)
unfolding nodup contains is_topological any
rounds_final_example =
    rounds_final digest earlier_of "a" entries [] first second "a0" refl refl refl

rounds_along_parents_example :
    (q : ℕ) × (get "b0" (assign_rounds everyone_sees by_id three fresh topo).rounds ≡ some q)
    × (0 ≤ q)
    × (q
        ≤ max_of (
            parent_rounds
              (assign_rounds everyone_sees by_id three fresh (first_event ∷ [])).rounds
              second_event.parents)
          + 1)
unfolding nodup contains assign_rounds assign_round round_of enter sees_supermajority seen_creators
    member_count get get_or put has keep set_of supermajority_threshold parent_rounds max_of
    creator_of
rounds_along_parents_example =
    rounds_along_parents everyone_sees by_id three (first_event ∷ []) [] second_event "a0" 0 refl
      refl refl refl
