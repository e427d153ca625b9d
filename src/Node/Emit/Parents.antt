-- ===== src/Node/Emit/Parents.antt =====
-- The parents and the clock of a new event.
use hashgraph.Prelude.{
  ℕ, zero, suc, ◌≡◌, ◌≤◌, refl, String, true, false, Option, none, some, List, [], ◌∷◌, string_eq,
  nat_eq, nat_ord, arith, length, contains, nodup, leb, Bool-cases, inl, inr,
}
use hashgraph.Models.{Event}
use hashgraph.Storage.{StoredEvent}
use hashgraph.Storage.Insert.Hops.{nodup-snoc, nodup_added}
use hashgraph.Node.Emit.{
  take, latest_event_by_source, list_recent_events, other_candidates, add_choice, add_anchors,
  id_list, choose_parents,
}

-- random.choice takes one of the elements.
abbrev pub IsChoice : (List String → String) → Type 0
IsChoice choose = (x : String) (xs : List String) → contains (x ∷ xs) (choose (x ∷ xs)) ≡ true

contains-take :
    (n : ℕ) (xs : List String) (a : String) → contains xs a ≡ false → contains (take n xs) a ≡ false
unfolding contains
contains-take zero xs a h = refl
contains-take (suc n) [] a h = refl
contains-take (suc n) (x ∷ xs) a h = ground (arith, contains-take n xs a)

nodup-take : (n : ℕ) (xs : List String) → nodup xs ≡ true → nodup (take n xs) ≡ true
unfolding nodup
nodup-take zero xs h = refl
nodup-take (suc n) [] h = refl
nodup-take (suc n) (x ∷ xs) h = ground (arith, nodup-take n xs, contains-take n xs x)

length-take : (n : ℕ) (xs : List String) → length (take n xs) ≤ n
length-take zero xs = omega arith
length-take (suc n) [] = omega arith
length-take (suc n) (x ∷ xs) = omega (arith, length-take n xs)

nodup-add_anchors :
    (anchors parents : List String)
    → nodup parents ≡ true
    → nodup (add_anchors anchors parents) ≡ true
unfolding add_anchors
nodup-add_anchors [] parents h = h
nodup-add_anchors (a ∷ anchors) parents h = elim (Bool-cases (leb 2 (length parents))) [
  | inl q ↦ rw q h
  | inr q ↦ rw q (nodup-add_anchors anchors _ (nodup_added parents a h))
]

candidates_new :
    (node_id : String) (parents : List String) (events : List Event) (k : String)
    → contains (other_candidates node_id parents events) k ≡ true
    → contains parents k ≡ false
unfolding other_candidates contains
candidates_new node_id parents [] k h = cc
candidates_new node_id parents (e ∷ events) k h =
    ground (arith, candidates_new node_id parents events k, string_eq.beq_iff e.id k)

nodup-add_choice :
    (choose : List String → String) (candidates parents : List String)
    → IsChoice choose
    → ((k : String) → contains candidates k ≡ true → contains parents k ≡ false)
    → nodup parents ≡ true
    → nodup (add_choice choose candidates parents) ≡ true
nodup-add_choice choose [] parents c h n = n
nodup-add_choice choose (x ∷ xs) parents c h n =
    nodup-snoc parents (choose (x ∷ xs)) n (h (choose (x ∷ xs)) (c x xs))

nodup-id_list : (found : Option Event) → nodup (id_list found) ≡ true
unfolding nodup contains
nodup-id_list none = refl
nodup-id_list (some e) = refl

-- A new event has at most two parents, and they are distinct.
pub choose_parents_bounds :
    (choose : List String → String) (node_id : String) (anchors : List String)
    (rows : List StoredEvent)
    → IsChoice choose
    → (length (choose_parents choose node_id anchors rows) ≤ 2)
      × (nodup (choose_parents choose node_id anchors rows) ≡ true)
unfolding choose_parents
choose_parents_bounds choose node_id anchors rows c =
    let self_parent = id_list (latest_event_by_source node_id rows) in
    let candidates = other_candidates node_id self_parent (list_recent_events 256 rows) in
    let chosen = add_choice choose candidates self_parent in
    (
      length-take 2 (add_anchors anchors chosen),
      nodup-take 2 _ (
          nodup-add_anchors anchors chosen (
            nodup-add_choice choose candidates self_parent c
              (candidates_new node_id self_parent (list_recent_events 256 rows))
              (nodup-id_list (latest_event_by_source node_id rows)))),
    )
