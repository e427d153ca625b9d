-- ===== src/Consensus/Recompute/Output.antt =====
-- What `recompute` returns: one state for each event, those that are received first, in the order of
-- the rounds in which they are received.
use mathlib.Core.List.{Perm}
use mathlib.Core.List.Perm
use hashgraph.Prelude.{
  ℕ, ◌≡◌, refl, ap, String, true, false, Option, some, List, [], ◌∷◌, map, arith, string_eq,
  nat_ord, text_ord, option_ord, pair_ord, le_of, Ord, contains, nodup, AllAbove, IsSortedOn, All,
  All-sort_on, ◌∙◌, sort_on, contains-sort_on, nodup-sort_on,
}
use hashgraph.Dict.{Dict, get, put, get-put}
use hashgraph.Models.{Event, Time, Hop}
use hashgraph.Consensus.Membership.{MembershipEntry}
use hashgraph.Consensus.Rounds.Final.{ids}
use hashgraph.Consensus.Order.{Resolved, placement, total_order}
use hashgraph.Consensus.Order.Laws.{
  plain_key, total_order-perm, total_order-IsSortedOn, order_plain,
}
use hashgraph.Consensus.Recompute.{
  ConsensusState, received, timestamp, resolve_all, state_of, recompute,
}

first_le :
    {A B : Type 0} ⦃o : Ord A⦄ ⦃p : Ord B⦄ (x y : A × B)
    → le_of {A = A × B} x y ≡ true
    → le_of x.0 y.0 ≡ true
first_le (a, b) (c, d) h = ground arith

module _ (sha256 : String → List ℕ) (midpoint : Time → Time → Time) (node_id : String)
    (membership : List MembershipEntry) (path_meta : Dict String (List Hop))
    (topo : List Event) where
  abbrev outcome : Event → Option ℕ × Option Time
  outcome e = (
    received sha256 midpoint node_id membership path_meta topo e,
    timestamp sha256 midpoint node_id membership path_meta topo e,
  )

  abbrev resolving : Resolved → List Event → Resolved
  resolving = resolve_all sha256 midpoint node_id membership path_meta topo

  resolve_all_keeps :
      (resolved : Resolved) (es : List Event) (k : String)
      → contains (ids es) k ≡ false
      → get k (resolving resolved es) ≡ get k resolved
  unfolding resolve_all contains
  resolve_all_keeps resolved [] k h = refl
  resolve_all_keeps resolved (e ∷ es) k h = ground (
    arith,
    resolve_all_keeps (put e.id (outcome e) resolved) es k,
    get-put e.id k (outcome e) resolved,
  )

  -- The event's entry is what was worked out for it.
  abbrev IsPlaced : Resolved → Event → Type 0
  IsPlaced resolved e = get e.id resolved ≡ some (outcome e)

  resolve-IsPlaced :
      (resolved : Resolved) (es : List Event)
      → nodup (ids es) ≡ true
      → All (IsPlaced (resolving resolved es)) es
  unfolding resolve_all nodup
  resolve-IsPlaced resolved [] h = tt
  resolve-IsPlaced resolved (e ∷ es) h = (
    ground (
      arith,
      resolve_all_keeps (put e.id (outcome e) resolved) es e.id,
      get-put e.id e.id (outcome e) resolved,
      string_eq.beq_iff e.id e.id,
    ),
    resolve-IsPlaced (put e.id (outcome e) resolved) es (ground arith),
  )

  abbrev final : Resolved
  final = resolving [] topo

  total_order-IsPlaced : nodup (ids topo) ≡ true → All (IsPlaced final) (total_order final topo)
  unfolding total_order
  total_order-IsPlaced h =
      rw (order_plain final topo 0 h)
        (All-sort_on (plain_key final) (IsPlaced final) topo (resolve-IsPlaced [] topo h))

  abbrev result : List ConsensusState
  result = recompute sha256 midpoint node_id membership path_meta topo

  abbrev as_state : Event → ConsensusState
  as_state = state_of sha256 midpoint node_id membership path_meta topo

  placed : (e : Event) → IsPlaced final e → placement final e ≡ outcome e
  unfolding placement
  placed e h = rw h

  -- Ordered by the whole key, the states are ordered by the round received.
  states_above :
      (d : Event) (es : List Event)
      → IsPlaced final d
      → All (IsPlaced final) es
      → AllAbove (plain_key final) (plain_key final d) es
      → AllAbove
          (λ (s : ConsensusState). s.round_received)
          (as_state d).round_received
          (map as_state es)
  unfolding state_of
  states_above d [] pd ps a = tt
  states_above d (e ∷ es) pd ps a = (
    rw (ap (λ q. q.0) (placed d pd), ap (λ q. q.0) (placed e ps.0)) at
        (first_le (plain_key final d) (plain_key final e) a.0),
    states_above d es pd ps.1 a.1,
  )

  states_in_order :
      (es : List Event)
      → All (IsPlaced final) es
      → IsSortedOn (plain_key final) es
      → IsSortedOn (λ (s : ConsensusState). s.round_received) (map as_state es)
  states_in_order [] ps s = tt
  states_in_order (e ∷ es) ps s = (states_above e es ps.0 ps.1 s.0, states_in_order es ps.1 s.1)

  map-event_id : (es : List Event) → map (λ s. s.event_id) (map as_state es) ≡ ids es
  unfolding state_of
  map-event_id [] = refl
  map-event_id (e ∷ es) = ap (◌∷◌ e.id) (map-event_id es)

  -- Given each event once, `recompute` returns one state for each, ordered by the round in which
  -- the event is received, those that are not received yet last.
  pub recompute-order :
      nodup (ids topo) ≡ true
      → Perm (map (λ s. s.event_id) result) (ids topo)
        × IsSortedOn (λ (s : ConsensusState). s.round_received) result
  unfolding recompute
  recompute-order h = (
    rw (map-event_id (total_order final topo))
        (Perm.map (λ e. e.id) (total_order-perm final topo h)),
    states_in_order (total_order final topo) (total_order-IsPlaced h)
        (total_order-IsSortedOn final topo h),
  )

  event_ids :
      nodup (ids topo) ≡ true → map (λ s. s.event_id) result ≡ ids (sort_on (plain_key final) topo)
  unfolding recompute total_order
  event_ids h = map-event_id (total_order final topo) ∙ ap ids (order_plain final topo 0 h)

  -- The states are those of the events, each once.
  pub contains-recompute :
      (k : String)
      → nodup (ids topo) ≡ true
      → contains (map (λ s. s.event_id) result) k ≡ contains (ids topo) k
  contains-recompute k h =
      ap (λ l. contains l k) (event_ids h) ∙ contains-sort_on (plain_key final) (λ e. e.id) k topo

  pub nodup-recompute : nodup (ids topo) ≡ true → nodup (map (λ s. s.event_id) result) ≡ true
  nodup-recompute h = ap nodup (event_ids h) ∙ nodup-sort_on (plain_key final) (λ e. e.id) topo ∙ h
