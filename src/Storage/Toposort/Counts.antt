-- ===== src/Storage/Toposort/Counts.antt =====
-- What the first loop of `toposort` builds: the children and the counts of the nodes.
use mathlib.Core.List.{append-nil, append_assoc}
use hashgraph.Prelude.{
  ℕ, ◌+◌, ◌≡◌, refl, sym, ◌∙◌, ap, String, Bool, true, false, ◌&&◌, List, [], ◌∷◌, ◌++◌, arith,
  string_eq, nat_eq, if◌then◌else◌, ◌==◌, count_if, contains, nodup, Bool-cases, inl, inr, ◌⊎◌,
}
use hashgraph.Dict.{Dict, get, get_or, has, put, get_or-put, keys, contains-keys}
use hashgraph.Storage.Toposort.{
  Edges, Graph, Degrees, empty_graph, zero_degrees, add_edge, add_edges, ready,
}

-- An edge between known events.
abbrev pub is_known : List String → String × String → Bool
is_known ids e = contains ids e.0 && contains ids e.1

-- The children of a node, along the edges between known events.
unfoldable pub children : List String → Edges → String → List String
children ids [] node = []
children ids (e ∷ edges) node =
    let more = children ids edges node in if is_known ids e && e.0 == node then e.1 ∷ more else more

-- How many known edges lead to the node from parents that pass the test.
unfoldable pub incoming : List String → Edges → (String → Bool) → String → ℕ
incoming ids edges from node = count_if (λ e. is_known ids e && (e.1 == node && from e.0)) edges

abbrev pub times : String → List String → ℕ
times k xs = count_if (λ x. x == k) xs

pub get_or-empty_graph : (ids : List String) (k : String) → get_or k [] (empty_graph ids) ≡ []
unfolding get_or get empty_graph
get_or-empty_graph [] k = refl
get_or-empty_graph (i ∷ ids) k = ground (arith, get_or-empty_graph ids k)

pub get_or-zero_degrees : (ids : List String) (k : String) → get_or k 0 (zero_degrees ids) ≡ 0
unfolding get_or get zero_degrees
get_or-zero_degrees [] k = refl
get_or-zero_degrees (i ∷ ids) k = ground (arith, get_or-zero_degrees ids k)

-- The graph as the loop over the edges builds it.
pub record Builds (ids : List String) (edges : Edges) (before after : Graph × Degrees)
    : Type 0 where
  pub graph_keys : keys after.0 ≡ ids
  pub degree_keys : keys after.1 ≡ ids
  pub child_lists :
      (k : String) → get_or k [] after.0 ≡ get_or k [] before.0 ++ children ids edges k
  pub counts :
      (k : String) → get_or k 0 after.1 ≡ get_or k 0 before.1 + incoming ids edges (λ p. true) k

-- One child more, at the node it belongs to.
child_added :
    (p c k : String) (graph : Graph) (more : List String)
    → get_or k [] (put p (get_or p [] graph ++ c ∷ []) graph) ++ more
      ≡ get_or k [] graph ++ (if p == k then c ∷ more else more)
child_added p c k graph more =
    ap (λ l. l ++ more) (get_or-put p k (get_or p [] graph ++ c ∷ []) [] graph)
    ∙ go (Bool-cases (p == k))
  where
    go :
        ((p == k) ≡ true) ⊎ ((p == k) ≡ false)
        → (if p == k then get_or p [] graph ++ c ∷ [] else get_or k [] graph) ++ more
          ≡ get_or k [] graph ++ (if p == k then c ∷ more else more)
    go (inl same) =
        rw (same, (string_eq.beq_iff p k).0 same) (append_assoc (get_or k [] graph) (c ∷ []) more)
    go (inr other) = rw other refl

keys-put {ℓ} :
    {V : Type ℓ} (k : String) (v : V) (d : Dict String V)
    → has k d ≡ true
    → keys (put k v d) ≡ keys d
unfolding has get put
keys-put k v [] h = cc
keys-put k v ((j, w) ∷ d) h = elim (Bool-cases (j == k)) [
  | inl q ↦ rw q refl
  | inr q ↦ rw q (ap (◌∷◌ j) (keys-put k v d (rw q at h)))
]

has-keys {ℓ} :
    {V : Type ℓ} (ids : List String) (k : String) (d : Dict String V)
    → keys d ≡ ids
    → has k d ≡ contains ids k
has-keys ids k d h = sym (contains-keys k d) ∙ ap (λ z. contains z k) h

add_edges-Builds :
    (ids : List String) (edges : Edges) (before : Graph × Degrees)
    → keys before.0 ≡ ids
    → keys before.1 ≡ ids
    → Builds ids edges before (add_edges edges before)
unfolding add_edges add_edge children incoming count_if
add_edges-Builds ids [] before h h' = record {
  graph_keys = h;
  degree_keys = h';
  child_lists = λ k. sym (append-nil (get_or k [] before.0));
  counts = λ k. omega arith;
}
add_edges-Builds ids ((p, c) ∷ edges) (graph, indegree) h h' =
    elim (Bool-cases (has p graph && has c graph)) [
      | inl known ↦
          let p_there = has-keys ids p graph h in
          let c_there = has-keys ids c graph h in
          let k_known : is_known ids (p, c) ≡ true = ground (arith, known, p_there, c_there) in
          let graph' = put p (get_or p [] graph ++ c ∷ []) graph in
          let indegree' = put c (get_or c 0 indegree + 1) indegree in
          let rest =
            add_edges-Builds ids edges (graph', indegree')
              (keys-put p _ graph (ground (arith, known)) ∙ h)
              (keys-put c _ indegree (ground (arith, known, has-keys ids c indegree h', c_there))
                ∙ h') in
          rw known (record {
            graph_keys = rest.graph_keys;
            degree_keys = rest.degree_keys;
            child_lists = λ k.
                rest.child_lists k
                ∙ child_added p c k graph (children ids edges k)
                ∙ rw k_known refl;
            counts = λ k. ground (
              arith,
              rest.counts k,
              k_known,
              get_or-put c k (get_or c 0 indegree + 1) 0 indegree,
              string_eq.beq_iff c k,
            );
          })
      | inr unknown ↦
          let k_unknown : is_known ids (p, c) ≡ false =
            ground (arith, unknown, has-keys ids p graph h, has-keys ids c graph h) in
          let rest = add_edges-Builds ids edges (graph, indegree) h h' in
          rw unknown (record {
            graph_keys = rest.graph_keys;
            degree_keys = rest.degree_keys;
            child_lists = λ k. rest.child_lists k ∙ rw k_unknown refl;
            counts = λ k. ground (arith, rest.counts k, k_unknown);
          })
    ]

keys-empty_graph : (ids : List String) → keys (empty_graph ids) ≡ ids
unfolding empty_graph
keys-empty_graph [] = refl
keys-empty_graph (i ∷ ids) = ap (◌∷◌ i) (keys-empty_graph ids)

keys-zero_degrees : (ids : List String) → keys (zero_degrees ids) ≡ ids
unfolding zero_degrees
keys-zero_degrees [] = refl
keys-zero_degrees (i ∷ ids) = ap (◌∷◌ i) (keys-zero_degrees ids)

-- The graph that the loop over the edges leaves.
pub built :
    (ids : List String) (edges : Edges)
    → Builds ids edges
        (empty_graph ids, zero_degrees ids)
        (add_edges edges (empty_graph ids, zero_degrees ids))
built ids edges = add_edges-Builds ids edges _ (keys-empty_graph ids) (keys-zero_degrees ids)

-- The nodes without incoming edges.
pub contains-ready :
    (indegree : Degrees) (k : String)
    → nodup (keys indegree) ≡ true
    → contains (ready indegree) k ≡ (has k indegree && get_or k 0 indegree == 0)
unfolding ready contains has get_or get nodup
contains-ready [] k h = refl
contains-ready ((node, deg) ∷ rest) k h = ground (
  arith,
  contains-ready rest k,
  contains-keys node rest,
  contains-keys k rest,
  string_eq.beq_iff node k,
)

pub nodup-ready :
    (indegree : Degrees) → nodup (keys indegree) ≡ true → nodup (ready indegree) ≡ true
unfolding ready nodup
nodup-ready [] h = refl
nodup-ready ((node, deg) ∷ rest) h =
    ground (arith, nodup-ready rest, contains-ready rest node, contains-keys node rest)
