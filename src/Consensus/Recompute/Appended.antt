-- ===== src/Consensus/Recompute/Appended.antt =====
-- The pass of `recompute` over an order, and over a longer one, which looks events up in a larger
-- graph.
use mathlib.Core.List.{Memᴰ}
use hashgraph.Prelude.{
  ℕ, ◌<◌, ◌≡◌, refl, sym, ◌∙◌, ap, subst, String, Bool, true, false, Option, some, none, List, [],
  ◌∷◌, ◌++◌, arith, string_eq, if◌then◌else◌, contains, nodup, inl, inr, Bool-cases,
}
use hashgraph.Dict.{Dict, get, get_or, values}
use hashgraph.Models.{Event, Time, Hop, creator_of}
use hashgraph.Consensus.Membership.{MembershipEntry, normalize_membership}
use hashgraph.Consensus.Ancestry.{Events, can_see}
use hashgraph.Consensus.Ancestry.Exact.{Ancestor, IsRanked, can_see_iff}
use hashgraph.Consensus.Rounds.{
  RoundState, fresh, round_of, max_of, parent_rounds, sees_supermajority, seen_creators, enter,
  assign_round, assign_rounds,
}
use hashgraph.Consensus.Rounds.Final.{ids, assign_rounds-append}
use hashgraph.Consensus.Recompute.{index_events, assigned}
use hashgraph.Consensus.Recompute.Index.{index_events-keeps, index_events-append, found_event}
use hashgraph.Consensus.Recompute.Positions.{
  is_topological, position, ids-append, Mem-ids, Mem-append, parent_before, not_later, apart,
}

-- The two graphs, of the earlier events and of all.
module _ (pre post : List Event) (once : nodup (ids (pre ++ post)) ≡ true)
    (sorted : is_topological (pre ++ post) ≡ true) where
  abbrev small : Events
  small = index_events [] pre

  abbrev large : Events
  large = index_events [] (pre ++ post)

  once_split : nodup (ids pre ++ ids post) ≡ true
  once_split = sym (ap nodup (ids-append pre post)) ∙ once

  same_entry : (k : String) → contains (ids post) k ≡ false → get k large ≡ get k small
  same_entry k h = ap (get k) (index_events-append [] pre post) ∙ index_events-keeps k small post h

  in_small : (k : String) (e : Event) → get k small ≡ some e → Memᴰ e pre × (e.id ≡ k)
  unfolding get
  in_small k e g = elim (found_event k e [] pre g) [ inl found ↦ found | inr at_k ↦ cc ]

  in_large : (k : String) (e : Event) → get k large ≡ some e → Memᴰ e (pre ++ post) × (e.id ≡ k)
  unfolding get
  in_large k e g = elim (found_event k e [] (pre ++ post) g) [ inl found ↦ found | inr at_k ↦ cc ]

  IsRanked-large : IsRanked large (position (pre ++ post))
  IsRanked-large k p event above e e' c =
      let (m, same) = in_large k event e in
      let (m', same') = in_large p above e' in
      subst (λ j. position (pre ++ post) p < position (pre ++ post) j) same
        (parent_before (pre ++ post) event p once sorted m c (
          subst (λ j. contains (ids (pre ++ post)) j ≡ true) same'
            (Mem-ids above (pre ++ post) m')))

  IsRanked-small : IsRanked small (position (pre ++ post))
  IsRanked-small k p event above e e' c =
      let (m, same) = in_small k event e in
      let (m', same') = in_small p above e' in
      subst (λ j. position (pre ++ post) p < position (pre ++ post) j) same
        (parent_before (pre ++ post) event p once sorted (Mem-append event pre post m) c (
          subst (λ j. contains (ids (pre ++ post)) j ≡ true) same'
            (Mem-ids above (pre ++ post) (Mem-append above pre post m'))))

  parents_stay :
      (k p : String) (e : Event)
      → get k small ≡ some e
      → contains e.parents p ≡ true
      → contains (ids post) p ≡ false
  parents_stay k p e g c = not_later pre post e p sorted (in_small k e g).0 c

  to_small :
      (t o : String)
      → contains (ids post) o ≡ false
      → Ancestor large t o
      → Ancestor small t o × (contains (ids post) t ≡ false)
  to_small t o h (Ancestor.parent event e m) =
      let e' = sym (same_entry o h) ∙ e in (Ancestor.parent event e' m, parents_stay o t event e' m)
  to_small t o h (Ancestor.further event p e m up) =
      let e' = sym (same_entry o h) ∙ e in
      let (up', later) = to_small t p (parents_stay o p event e' m) up in
      (Ancestor.further event p e' m up', later)

  to_large :
      (t o : String) → contains (ids post) o ≡ false → Ancestor small t o → Ancestor large t o
  to_large t o h (Ancestor.parent event e m) = Ancestor.parent event (same_entry o h ∙ e) m
  to_large t o h (Ancestor.further event p e m up) =
      Ancestor.further event p (same_entry o h ∙ e) m (to_large t p (parents_stay o p event e m) up)

  same_truth : (a b : Bool) → (a ≡ true → b ≡ true) → (b ≡ true → a ≡ true) → a ≡ b
  same_truth true b f g = sym (f refl)
  same_truth false true f g = g refl
  same_truth false false f g = refl

  same_sight :
      (o t : String) → contains (ids post) o ≡ false → can_see large o t ≡ can_see small o t
  same_sight o t h =
      let in_l = can_see_iff large (position (pre ++ post)) o t IsRanked-large in
      let in_s = can_see_iff small (position (pre ++ post)) o t IsRanked-small in
      same_truth (can_see large o t) (can_see small o t)
        (λ seen. elim (in_l.0 seen) [
          | inl e ↦ in_s.1 (inl e)
          | inr a ↦ in_s.1 (inr (to_small t o h a).0)
        ])
        (λ seen. elim (in_s.0 seen) [
          | inl e ↦ in_l.1 (inl e)
          | inr a ↦ in_l.1 (inr (to_large t o h a))
        ])

  unseen :
      (o t : String)
      → contains (ids post) o ≡ false
      → contains (ids post) t ≡ true
      → can_see large o t ≡ false
  unseen o t h k = elim (Bool-cases (can_see large o t)) [
    | inl seen ↦ elim ((can_see_iff large (position (pre ++ post)) o t IsRanked-large).0 seen) [
      | inl e ↦ absurd (cc (h, k, ap (contains (ids post)) e))
      | inr a ↦ absurd (cc ((to_small t o h a).1, k))
    ]
    | inr hidden ↦ hidden
  ]

  abbrev sees_large : String → String → Bool
  sees_large = can_see large

  abbrev sees_small : String → String → Bool
  sees_small = can_see small

  abbrev added : Option Event → Bool → List String → List String
  added found seen rest = elim found [
    | none ↦ rest
    | some w ↦ if seen then creator_of w ∷ rest else rest
  ]

  same_added :
      (found found' : Option Event) (seen seen' : Bool) (rest rest' : List String)
      → found ≡ found'
      → seen ≡ seen'
      → rest ≡ rest'
      → added found seen rest ≡ added found' seen' rest'
  same_added found found' seen seen' rest rest' p q r =
      ap (λ f. added f seen rest) p ∙ ap (λ b. added found' b rest) q ∙ ap (added found' seen') r

  skipped :
      (found : Option Event) (seen : Bool) (rest : List String)
      → seen ≡ false
      → added found seen rest ≡ rest
  skipped none seen rest h = refl
  skipped (some w) seen rest h = ground (arith, h)

  same_creators :
      (o : String) (ws : List String)
      → contains (ids post) o ≡ false
      → seen_creators sees_large large o ws ≡ seen_creators sees_small small o ws
  unfolding seen_creators
  same_creators o [] h = refl
  same_creators o (w ∷ ws) h = elim (Bool-cases (contains (ids post) w)) [
    | inl later ↦
        let hidden = unseen o w h later in
        skipped (get w large) (sees_large o w) (seen_creators sees_large large o ws) hidden
        ∙ same_creators o ws h
        ∙ sym (
            skipped (get w small) (sees_small o w) (seen_creators sees_small small o ws)
              (sym (same_sight o w h) ∙ hidden))
    | inr earlier ↦
        same_added (get w large) (get w small) (sees_large o w) (sees_small o w)
          (seen_creators sees_large large o ws) (seen_creators sees_small small o ws)
          (same_entry w earlier) (same_sight o w h) (same_creators o ws h)
  ]

  module _ (members : List String) where
    same_round :
        (s : RoundState) (e : Event)
        → contains (ids post) e.id ≡ false
        → round_of sees_large large members s e ≡ round_of sees_small small members s e
    unfolding round_of sees_supermajority
    same_round s e h =
        rw
          (same_creators e.id
            (values (get_or (max_of (parent_rounds s.rounds e.parents)) [] s.witnesses_by_round)) h)
          refl

    same_pass :
        (s : RoundState) (es : List Event)
        → ((k : String) → contains (ids es) k ≡ true → contains (ids post) k ≡ false)
        → assign_rounds sees_large large members s es ≡ assign_rounds sees_small small members s es
    unfolding assign_rounds assign_round contains
    same_pass s [] h = refl
    same_pass s (e ∷ es) h =
        ap (λ r. assign_rounds sees_large large members (enter s e r) es)
          (same_round s e (h e.id (ground (arith, string_eq.beq_iff e.id e.id))))
        ∙ same_pass (enter s e (round_of sees_small small members s e)) es
            (λ k m. h k (ground (arith, m)))

-- Where the ids are distinct and no event has a parent at its place or behind it, events that are
-- appended to the order change neither the round nor the witness flag of an event before them,
-- though the pass then looks events up in the larger graph.
pub rounds_final :
    (sha256 : String → List ℕ) (midpoint : Time → Time → Time) (node_id : String)
    (membership : List MembershipEntry) (path_meta : Dict String (List Hop)) (pre post : List Event)
    (k : String)
    → nodup (ids (pre ++ post)) ≡ true
    → is_topological (pre ++ post) ≡ true
    → contains (ids pre) k ≡ true
    → (get k (assigned sha256 midpoint node_id membership path_meta (pre ++ post)).rounds
        ≡ get k (assigned sha256 midpoint node_id membership path_meta pre).rounds)
      × (get k (assigned sha256 midpoint node_id membership path_meta (pre ++ post)).witness_flags
          ≡ get k (assigned sha256 midpoint node_id membership path_meta pre).witness_flags)
unfolding assigned
rounds_final sha256 midpoint node_id membership path_meta pre post k once sorted here =
    let members = normalize_membership node_id membership in
    let later = apart (ids pre) (ids post) in
    let split = once_split pre post once sorted in
    let kept =
      assign_rounds-append (can_see (index_events [] (pre ++ post))) (index_events [] (pre ++ post))
        members pre post k (later k split here) in
    let same = same_pass pre post once sorted members fresh pre (λ j m. later j split m) in
    (kept.0 ∙ ap (λ s. get k s.rounds) same, kept.1 ∙ ap (λ s. get k s.witness_flags) same)
