-- ===== src/Storage/Insert/Hops.antt =====
-- The ids, the edges and the hops that `store_envelope` leaves.
use mathlib.Core.List.{map-append}
use hashgraph.Prelude.{
  ◌≡◌, refl, ap, String, Bool, true, false, ◌||◌, ◌&&◌, Option, none, some, List, [], ◌∷◌, ◌++◌,
  string_eq, pair_eq, option_eq, Eq, arith, if◌then◌else◌, ◌==◌, contains, contains-append, nodup,
  Bool-cases, inl, inr, ap₂, All,
}
use hashgraph.Dict.{Dict, get_or, put, get_or-put}
use hashgraph.Models.{Event, Time, Hop, Envelope, Json}
use hashgraph.Storage.{StoredEvent, Database, id_of}
use hashgraph.Storage.Rows.{row_ids}
use hashgraph.Storage.Insert.{
  hop_eq, merge_hops, merge_path_meta, add_parents, update_event, exists_event, timed, inserted,
  store_envelope, timed_row, insert_row,
}

module _ {ℓ} {A : Type ℓ} ⦃e : Eq A⦄ where
  pub nodup-snoc :
      (xs : List A) (a : A) → nodup xs ≡ true → contains xs a ≡ false → nodup (xs ++ a ∷ []) ≡ true
  unfolding nodup contains
  nodup-snoc [] a h k = refl
  nodup-snoc (x ∷ xs) a h k =
      ground (arith, nodup-snoc xs a, contains-append xs (a ∷ []) x, e.beq_iff x a, e.beq_iff a x)

  pub nodup_added :
      (xs : List A) (a : A)
      → nodup xs ≡ true
      → nodup (if contains xs a then xs else xs ++ a ∷ []) ≡ true
  nodup_added xs a h = go (contains xs a) refl
    where
      go : (b : Bool) → contains xs a ≡ b → nodup (if b then xs else xs ++ a ∷ []) ≡ true
      go true k = h
      go false k = nodup-snoc xs a h k

contains-merge_hops :
    (merged path : List Hop) (h : Hop)
    → contains (merge_hops merged path) h ≡ (contains merged h || contains path h)
unfolding merge_hops contains
contains-merge_hops merged [] h = ground arith
contains-merge_hops merged (p ∷ path) h = ground (
  arith,
  contains-merge_hops merged path h,
  contains-merge_hops (merged ++ p ∷ []) path h,
  contains-append merged (p ∷ []) h,
  hop_eq.beq_iff p h,
)

nodup-merge_hops :
    (merged path : List Hop) → nodup merged ≡ true → nodup (merge_hops merged path) ≡ true
unfolding merge_hops
nodup-merge_hops merged [] k = k
nodup-merge_hops merged (p ∷ path) k =
    nodup-merge_hops (if contains merged p then merged else merged ++ p ∷ []) path
      (nodup_added merged p k)

nodup-add_parents :
    (parents : List String) (child : String) (edges : List (String × String))
    → nodup edges ≡ true
    → nodup (add_parents parents child edges) ≡ true
unfolding add_parents
nodup-add_parents [] child edges h = h
nodup-add_parents (p ∷ parents) child edges h =
    nodup-add_parents parents child _ (nodup_added edges (p, child) h)

row_ids-update_event :
    (k : String) (f : Event → Event) (rows : List StoredEvent)
    → ((e : Event) → (f e).id ≡ e.id)
    → row_ids (update_event k f rows) ≡ row_ids rows
unfolding update_event
row_ids-update_event k f [] h = refl
row_ids-update_event k f (row ∷ rows) h = elim (Bool-cases (id_of row == k)) [
  | inl q ↦ rw q (ap₂ ◌∷◌ (h row.event) (row_ids-update_event k f rows h))
  | inr q ↦ rw q (ap (◌∷◌ (id_of row)) (row_ids-update_event k f rows h))
]

-- Every envelope has each hop once.
abbrev pub HasHopsOnce : Dict String (List Hop) → Type 0
HasHopsOnce envelopes = All (λ e. nodup e.1 ≡ true) envelopes

HasHopsOnce-put :
    (k : String) (hops : List Hop) (d : Dict String (List Hop))
    → nodup hops ≡ true
    → HasHopsOnce d
    → HasHopsOnce (put k hops d)
unfolding put
HasHopsOnce-put k hops [] h a = (h, tt)
HasHopsOnce-put k hops ((j, w) ∷ d) h a = elim (Bool-cases (j == k)) [
  | inl q ↦ rw q (h, a.1)
  | inr q ↦ rw q (a.0, HasHopsOnce-put k hops d h a.1)
]

-- Each event, each edge and each hop of an event is there once.
pub record IsSound (db : Database) : Type 0 where
  pub events_once : nodup (row_ids db.events) ≡ true
  pub edges_once : nodup db.edges ≡ true
  pub hops_once : HasHopsOnce db.envelopes

merge_path_meta-IsSound :
    (event_id : String) (path : List Hop) (db : Database)
    → IsSound db
    → IsSound (merge_path_meta event_id path db)
unfolding merge_path_meta nodup
merge_path_meta-IsSound event_id path db s = record {
  events_once = s.events_once;
  edges_once = s.edges_once;
  hops_once =
      HasHopsOnce-put event_id _ db.envelopes
        (nodup-merge_hops _ path (nodup-merge_hops [] (get_or event_id [] db.envelopes) refl))
        s.hops_once;
}

timed_row-IsSound :
    (consensus_ts : Option Time) (event : Event) (db : Database)
    → IsSound db
    → IsSound (timed_row consensus_ts event db)
unfolding timed_row timed
timed_row-IsSound none event db s = s
timed_row-IsSound (some ts) event db s = record {
  events_once =
      rw (row_ids-update_event event.id (timed (some ts) event) db.events (λ e. refl))
        s.events_once;
  edges_once = s.edges_once;
  hops_once = s.hops_once;
}

module _ (payload_json : Dict String Json → String) (now : Time) where
  insert_row-IsSound :
      (consensus_ts : Option Time) (event : Event) (db : Database)
      → exists_event event.id db.events ≡ false
      → IsSound db
      → IsSound (insert_row payload_json now consensus_ts event db)
  unfolding insert_row exists_event inserted
  insert_row-IsSound consensus_ts event db h s = record {
    events_once = rw map-append (nodup-snoc (row_ids db.events) event.id s.events_once h);
    edges_once = nodup-add_parents event.parents event.id db.edges s.edges_once;
    hops_once = s.hops_once;
  }

  -- Storing an envelope keeps each event, each edge and each hop of an event once.
  pub store_envelope-IsSound :
      (envelope : Envelope) (consensus_ts : Option Time) (db : Database)
      → IsSound db
      → IsSound (store_envelope payload_json now envelope consensus_ts db).1
  unfolding store_envelope
  store_envelope-IsSound envelope consensus_ts db s =
      elim (Bool-cases (exists_event envelope.event.id db.events)) [
        | inl q ↦ rw q (
            merge_path_meta-IsSound envelope.event.id envelope.path_meta _
              (timed_row-IsSound consensus_ts envelope.event db s))
        | inr q ↦ rw q (
            merge_path_meta-IsSound envelope.event.id envelope.path_meta _
              (insert_row-IsSound consensus_ts envelope.event db q s))
      ]

  envelopes-timed_row :
      (consensus_ts : Option Time) (event : Event) (db : Database)
      → (timed_row consensus_ts event db).envelopes ≡ db.envelopes
  unfolding timed_row
  envelopes-timed_row none event db = refl
  envelopes-timed_row (some ts) event db = refl

  envelopes-store_envelope :
      (envelope : Envelope) (consensus_ts : Option Time) (db : Database)
      → (store_envelope payload_json now envelope consensus_ts db).1.envelopes
        ≡ (merge_path_meta envelope.event.id envelope.path_meta db).envelopes
  unfolding store_envelope merge_path_meta insert_row
  envelopes-store_envelope envelope consensus_ts db =
      elim (Bool-cases (exists_event envelope.event.id db.events)) [
        | inl q ↦ rw (q, envelopes-timed_row consensus_ts envelope.event db) refl
        | inr q ↦ rw q refl
      ]

  -- After an envelope is stored, its event has the hops it had and those of the envelope, and no
  -- other event's hops change.
  pub store_envelope_hops :
      (envelope : Envelope) (consensus_ts : Option Time) (db : Database) (k : String) (h : Hop)
      → contains
          (get_or k [] (store_envelope payload_json now envelope consensus_ts db).1.envelopes)
          h
        ≡ (contains (get_or k [] db.envelopes) h
            || envelope.event.id == k && contains envelope.path_meta h)
  unfolding merge_path_meta contains
  store_envelope_hops envelope consensus_ts db k h =
      rw (envelopes-store_envelope envelope consensus_ts db) (
        ground (
          arith,
          get_or-put envelope.event.id k
              (merge_hops (merge_hops [] (get_or envelope.event.id [] db.envelopes))
                envelope.path_meta)
              [] db.envelopes,
          contains-merge_hops (merge_hops [] (get_or envelope.event.id [] db.envelopes))
              envelope.path_meta h,
          contains-merge_hops [] (get_or envelope.event.id [] db.envelopes) h,
          string_eq.beq_iff envelope.event.id k,
        ))
