-- ===== src/Storage/Toposort/Total.antt =====
-- `toposort`: an order of the events when the edges have one, and an error otherwise.
use hashgraph.Prelude.{
  ℕ, zero, suc, ◌+◌, ◌<◌, ◌≡◌, ◌≢◌, refl, sym, ◌∙◌, ap, String, Bool, true, false, ◌&&◌, ◌||◌, not,
  List, [], ◌∷◌, ◌++◌, arith, string_eq, nat_eq, if◌then◌else◌, ◌==◌, length, count_if, contains,
  nodup, ltb, all, ◌⊎◌, inl, inr, Bool-cases, ok, err, ok_inj, length_subset, subst,
}
use hashgraph.Dict.{Dict, get_or, has, keys, contains-keys}
use hashgraph.Storage.Toposort.{
  Edges, Graph, Degrees, cycle_detected, empty_graph, zero_degrees, add_edges, ready, drain,
  toposort,
}
use hashgraph.Storage.Toposort.Counts.{
  built, children, incoming, is_known, get_or-empty_graph, get_or-zero_degrees, contains-ready,
  nodup-ready,
}
use hashgraph.Storage.Toposort.Sound.{open_edges, placed, Inv, Ends, drain-Ends}

-- Along each edge between known events the rank grows.
abbrev pub is_ranked : (String → ℕ) → List String → Edges → Bool
is_ranked rank ids edges = all (λ e. not (is_known ids e) || ltb (rank e.0) (rank e.1)) edges

length-keys {ℓ} : {V : Type ℓ} (d : Dict String V) → length (keys d) ≡ length d
length-keys [] = refl
length-keys (e ∷ d) = omega (arith, length-keys d)

module _ (ids : List String) (edges : Edges) (once : nodup ids ≡ true) where
  abbrev first_graph : Graph × Degrees
  first_graph = add_edges edges (empty_graph ids, zero_degrees ids)

  starts : Inv ids edges first_graph.1 (ready first_graph.1) []
  unfolding contains nodup placed
  starts =
      let b = built ids edges in
      let fresh : nodup (keys first_graph.1) ≡ true = ap nodup b.degree_keys ∙ once in
      let known : (v : String) → has v first_graph.1 ≡ contains ids v =
        λ v. sym (contains-keys v first_graph.1) ∙ ap (λ z. contains z v) b.degree_keys in
      record {
        order_once = refl;
        queue_once = nodup-ready first_graph.1 fresh;
        apart = λ v m. cc;
        left = λ v. omega (arith, b.counts v, get_or-zero_degrees ids v);
        free = λ v.
            contains-ready first_graph.1 v fresh
            ∙ ap (λ z. z && get_or v 0 first_graph.1 == 0) (known v);
        in_order = refl;
      }

  abbrev final_order : List String
  final_order = drain (length ids) first_graph.0 first_graph.1 (ready first_graph.1) []

  ends : Ends ids edges final_order
  ends =
      drain-Ends ids edges first_graph.0
        (λ k.
          (built ids edges).child_lists k
          ∙ ap (λ l. l ++ children ids edges k) (get_or-empty_graph ids k))
        (length ids) first_graph.1 (ready first_graph.1) [] (omega arith) starts

  length-graph : length first_graph.0 ≡ length ids
  length-graph = sym (length-keys first_graph.0) ∙ ap length (built ids edges).graph_keys

  -- The result is the order of the loop, or the error.
  decided :
      toposort ids edges
      ≡ (if length final_order == length ids then ok final_order else err cycle_detected)
  unfolding toposort
  decided =
      ap (λ n. if length final_order == n then ok final_order else err cycle_detected) length-graph

  returned : (length final_order == length ids) ≡ true → toposort ids edges ≡ ok final_order
  returned full = decided ∙ ap (λ b. if b then ok final_order else err cycle_detected) full

  failed : (length final_order == length ids) ≡ false → toposort ids edges ≡ err cycle_detected
  failed short = decided ∙ ap (λ b. if b then ok final_order else err cycle_detected) short

  -- Of a rank that grows along the edges: when all smaller events are in the order, no edge is open.
  closed :
      (rank : String → ℕ) (es : Edges) (out : List String) (v : String)
      → is_ranked rank ids es ≡ true
      → ((p : String) → contains ids p ≡ true → rank p < rank v → contains out p ≡ true)
      → open_edges ids es out v ≡ 0
  unfolding incoming count_if all
  closed rank [] out v h below = refl
  closed rank ((p, c) ∷ es) out v h below =
      ground (arith, h, closed rank es out v, below p, string_eq.beq_iff c v)

  everything :
      (rank : String → ℕ)
      → is_ranked rank ids edges ≡ true
      → (out : List String)
      → ((v : String) → contains out v ≡ (contains ids v && open_edges ids edges out v == 0))
      → (n : ℕ) (v : String) → rank v < n
      → contains ids v ≡ true
      → contains out v ≡ true
  everything rank h out f zero v below m = ground (arith, below)
  everything rank h out f (suc n) v below m =
      let none_open =
        closed rank edges out v h
          (λ p k smaller. everything rank h out f n p (omega (arith, below, smaller)) k) in
      ground (arith, f v, m, none_open)

  full :
      (rank : String → ℕ)
      → is_ranked rank ids edges ≡ true
      → (length final_order == length ids) ≡ true
  full rank h = go ends.finished
    where
      go :
          (length final_order ≡ length ids)
            ⊎ ((v : String)
                → contains final_order v
                  ≡ (contains ids v && open_edges ids edges final_order v == 0))
          → (length final_order == length ids) ≡ true
      go (inl same) = ground (arith, same)
      go (inr f) = ground (
        arith,
        length_subset final_order ids ends.once ends.inside,
        length_subset ids final_order once
            (λ v m. everything rank h final_order f (rank v + 1) v (omega arith) m),
      )

-- An order holds each event once, and all of them.
filled :
    (ids out : List String)
    → nodup out ≡ true
    → ((v : String) → contains out v ≡ true → contains ids v ≡ true)
    → length out ≡ length ids
    → (v : String) → contains out v ≡ contains ids v
unfolding nodup contains
filled ids out once inside same v = elim (Bool-cases (contains out v)) [
  | inl there ↦ there ∙ sym (inside v there)
  | inr missing ↦ elim (Bool-cases (contains ids v)) [
    | inl known ↦
        let larger =
          length_subset (v ∷ out) ids (ground (arith, once, missing))
            (λ a m. ground (arith, m, inside a, known, string_eq.beq_iff v a)) in
        ground (arith, larger, same)
    | inr unknown ↦ missing ∙ sym unknown
  ]
]

-- What the caller of `toposort` may rely on.
pub record IsSorted (ids : List String) (edges : Edges) (order : List String) : Type 0 where
  pub each_once : nodup order ≡ true
  pub same_events : (v : String) → contains order v ≡ contains ids v
  pub parents_first : placed ids edges [] order ≡ true

-- If the ids of the events are distinct and `toposort` returns an order, then the order holds
-- each event once, holds exactly the events of the store, and an edge between two events
-- leads from an earlier event of the order to a later one.
pub toposort-IsSorted :
    (ids : List String) (edges : Edges) (order : List String)
    → nodup ids ≡ true
    → toposort ids edges ≡ ok order
    → IsSorted ids edges order
toposort-IsSorted ids edges order once h =
    let out = final_order ids edges once in
    let e = ends ids edges once in
    elim (Bool-cases (length out == length ids)) [
      | inl full ↦
          let same : out ≡ order = ok_inj (sym (returned ids edges once full) ∙ h) in
          subst (IsSorted ids edges) same (record {
            each_once = e.once;
            same_events = filled ids out e.once e.inside (ground (arith, full));
            parents_first = e.sorted;
          })
      | inr short ↦ cc (failed ids edges once short, h)
    ]

-- If the ids of the events are distinct and some rank grows along every edge between two
-- events (the edges have no cycle), then `toposort` returns an order, not the error.
pub toposort_total :
    (rank : String → ℕ) (ids : List String) (edges : Edges)
    → nodup ids ≡ true
    → is_ranked rank ids edges ≡ true
    → toposort ids edges ≢ err cycle_detected
toposort_total rank ids edges once h bad =
    cc (returned ids edges once (full ids edges once rank h), bad)
