-- ===== src/Consensus/Recompute/Positions.antt =====
-- An order of the events in which parents come first, and the places in it.
use mathlib.Core.List.{Memᴰ}
use hashgraph.Prelude.{
  ℕ, suc, ◌<◌, ◌≡◌, refl, sym, ◌∙◌, ap, subst, String, Bool, true, false, ◌&&◌, not, List, [], ◌∷◌,
  ◌++◌, arith, string_eq, ◌==◌, if◌then◌else◌, contains, contains-append, nodup, any, inl, inr,
  Bool-cases,
}
use hashgraph.Models.{Event}
use hashgraph.Consensus.Rounds.Final.{ids}

-- No event has a parent that stands at its place or behind it.
unfoldable pub is_topological : List Event → Bool
is_topological [] = true
is_topological (e ∷ topo) = not (any (contains (ids (e ∷ topo))) e.parents) && is_topological topo

pub position : List Event → String → ℕ
position [] k = 0
position (e ∷ topo) k = let rest = position topo k in if e.id == k then 0 else suc rest

pub ids-append : (xs ys : List Event) → ids (xs ++ ys) ≡ ids xs ++ ids ys
ids-append [] ys = refl
ids-append (x ∷ xs) ys = ap (◌∷◌ x.id) (ids-append xs ys)

any-contains :
    (f : String → Bool) (ps : List String) (p : String)
    → any f ps ≡ false
    → contains ps p ≡ true
    → f p ≡ false
unfolding any contains
any-contains f [] p h c = cc
any-contains f (q ∷ ps) p h c = elim (Bool-cases (q == p)) [
  | inl same ↦ ap f (sym ((string_eq.beq_iff q p).0 same)) ∙ ground (arith, h)
  | inr other ↦ any-contains f ps p (ground (arith, h)) (ground (arith, c))
]

pub Mem-ids : (e : Event) (es : List Event) → Memᴰ e es → contains (ids es) e.id ≡ true
unfolding contains
Mem-ids e [] m = elim m [ ]
Mem-ids e (x ∷ es) (Memᴰ.head same) =
    ground (arith, (string_eq.beq_iff x.id e.id).1 (ap (λ (d : Event). d.id) (sym same)))
Mem-ids e (x ∷ es) (Memᴰ.tail m) = ground (arith, Mem-ids e es m)

pub Mem-append : (e : Event) (xs ys : List Event) → Memᴰ e xs → Memᴰ e (xs ++ ys)
Mem-append e [] ys m = elim m [ ]
Mem-append e (x ∷ xs) ys (Memᴰ.head same) = Memᴰ.head same
Mem-append e (x ∷ xs) ys (Memᴰ.tail m) = Memᴰ.tail (Mem-append e xs ys m)

pub parent_before :
    (topo : List Event) (e : Event) (p : String)
    → nodup (ids topo) ≡ true
    → is_topological topo ≡ true
    → Memᴰ e topo
    → contains e.parents p ≡ true
    → contains (ids topo) p ≡ true
    → position topo p < position topo e.id
unfolding position is_topological nodup contains
parent_before [] e p once h m c k = elim m [ ]
parent_before (x ∷ topo) e p once h (Memᴰ.head same) c k =
    let parent = subst (λ (d : Event). contains d.parents p ≡ true) same c in
    let after = any-contains (contains (ids (x ∷ topo))) x.parents p (ground (arith, h)) parent in
    absurd (cc (after, k))
parent_before (x ∷ topo) e p once h (Memᴰ.tail m) c k = ground (
  arith,
  once,
  k,
  Mem-ids e topo m,
  string_eq.beq_iff x.id e.id,
  string_eq.beq_iff x.id p,
  parent_before topo e p (ground (arith, once)) (ground (arith, h)) m c,
)

-- Parents of an earlier event are not among the later ones.
pub not_later :
    (pre post : List Event) (e : Event) (p : String)
    → is_topological (pre ++ post) ≡ true
    → Memᴰ e pre
    → contains e.parents p ≡ true
    → contains (ids post) p ≡ false
unfolding is_topological contains
not_later [] post e p h m c = elim m [ ]
not_later (x ∷ pre) post e p h (Memᴰ.head same) c =
    let parent = subst (λ (d : Event). contains d.parents p ≡ true) same c in
    let after =
      any-contains (contains (ids (x ∷ (pre ++ post)))) x.parents p (ground (arith, h)) parent in
    ground (
      arith,
      after,
      ap (λ l. contains l p) (ids-append pre post),
      contains-append (ids pre) (ids post) p,
    )
not_later (x ∷ pre) post e p h (Memᴰ.tail m) c = not_later pre post e p (ground (arith, h)) m c

pub apart :
    (xs ys : List String) (k : String)
    → nodup (xs ++ ys) ≡ true
    → contains xs k ≡ true
    → contains ys k ≡ false
unfolding nodup contains
apart [] ys k h c = cc
apart (x ∷ xs) ys k h c = elim (Bool-cases (x == k)) [
  | inl same ↦
      ap (contains ys) (sym ((string_eq.beq_iff x k).0 same))
      ∙ ground (arith, h, contains-append xs ys x)
  | inr other ↦ apart xs ys k (ground (arith, h)) (ground (arith, c))
]
