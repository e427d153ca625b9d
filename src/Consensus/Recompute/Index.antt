-- ===== src/Consensus/Recompute/Index.antt =====
-- The dict of the events by id that `recompute` builds.
use mathlib.Core.List.{Memᴰ}
use hashgraph.Prelude.{
  ◌≡◌, refl, sym, ◌∙◌, ap, String, Bool, true, false, ◌||◌, some, List, [], ◌∷◌, ◌++◌, arith,
  string_eq, ◌==◌, if◌then◌else◌, contains, is_some, some_inj, ◌⊎◌, inl, inr,
}
use hashgraph.Dict.{get, put, get-put}
use hashgraph.Models.{Event}
use hashgraph.Consensus.Ancestry.{Events}
use hashgraph.Consensus.Rounds.Final.{ids}
use hashgraph.Consensus.Recompute.{index_events}

pub has-index_events :
    (k : String) (by_id : Events) (es : List Event)
    → is_some (get k (index_events by_id es)) ≡ (is_some (get k by_id) || contains (ids es) k)
unfolding index_events contains
has-index_events k by_id [] = ground arith
has-index_events k by_id (event ∷ es) =
    ground (arith, has-index_events k (put event.id event by_id) es, get-put event.id k event by_id)

-- Other events leave an entry.
pub index_events-keeps :
    (k : String) (by_id : Events) (es : List Event)
    → contains (ids es) k ≡ false
    → get k (index_events by_id es) ≡ get k by_id
unfolding index_events contains
index_events-keeps k by_id [] h = refl
index_events-keeps k by_id (event ∷ es) h =
    ground
      (arith, index_events-keeps k (put event.id event by_id) es, get-put event.id k event by_id)

pub index_events-append :
    (by_id : Events) (xs ys : List Event)
    → index_events by_id (xs ++ ys) ≡ index_events (index_events by_id xs) ys
unfolding index_events
index_events-append by_id [] ys = refl
index_events-append by_id (x ∷ xs) ys = index_events-append (put x.id x by_id) xs ys

-- What is found is one of the events, under its id, or was there.
pub found_event :
    (k : String) (e : Event) (by_id : Events) (es : List Event)
    → get k (index_events by_id es) ≡ some e
    → (Memᴰ e es × (e.id ≡ k)) ⊎ (get k by_id ≡ some e)
unfolding index_events
found_event k e by_id [] h = inr h
found_event k e by_id (x ∷ es) h = elim (found_event k e (put x.id x by_id) es h) [
  | inl (m, same) ↦ inl (Memᴰ.tail m, same)
  | inr at_k ↦ go (x.id == k) refl (sym (get-put x.id k x by_id) ∙ at_k)
]
  where
    go :
        (b : Bool)
        → (x.id == k) ≡ b
        → (if b then some x else get k by_id) ≡ some e
        → (Memᴰ e (x ∷ es) × (e.id ≡ k)) ⊎ (get k by_id ≡ some e)
    go true p q =
        let same : x ≡ e = some_inj q in
        inl (
          Memᴰ.head (sym same),
          ap (λ (d : Event). d.id) (sym same) ∙ (string_eq.beq_iff x.id k).0 p,
        )
    go false p q = inr q
