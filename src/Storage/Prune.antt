-- ===== src/Storage/Prune.antt =====
-- What `prune_under_checkpoint` leaves.
use hashgraph.Prelude.{
  ℕ, ◌≡◌, refl, sym, ◌∙◌, String, Bool, true, false, not, some, List, [], ◌∷◌, arith, string_eq,
  nat_ord, keep, contains, nodup, sort_on, All,
}
use hashgraph.Dict.{get, get-put, get-put_self}
use hashgraph.Models.{Time}
use hashgraph.Storage.{
  StoredEvent, Database, id_of, is_eligible, round_or_zero, skeleton_of, prune_one, prune_all,
  prune_under_checkpoint,
}
use hashgraph.Storage.Rows.{
  row_ids, is_among, keep_all, keep-without_event, keep-unselected, contains-row_ids-sort_on,
  nodup-row_ids-sort_on, nodup-row_ids-keep,
}

module _ (sha256 : String → String) (now : Time) where
  prune_all-events :
      (db : Database) (rows : List StoredEvent)
      → (prune_all sha256 now db rows).events
        ≡ keep (λ x. not (is_among (row_ids rows) x)) db.events
  unfolding prune_all prune_one contains
  prune_all-events db [] = sym (keep_all db.events)
  prune_all-events db (row ∷ rows) =
      prune_all-events (prune_one sha256 now db row) rows
      ∙ keep-without_event (id_of row) (row_ids rows) db.events

  prune_all-edges :
      (db : Database) (rows : List StoredEvent) → (prune_all sha256 now db rows).edges ≡ db.edges
  unfolding prune_all prune_one
  prune_all-edges db [] = refl
  prune_all-edges db (row ∷ rows) = prune_all-edges (prune_one sha256 now db row) rows

  prune_all-skeleton_of_other :
      (db : Database) (rows : List StoredEvent) (k : String)
      → contains (row_ids rows) k ≡ false
      → get k (prune_all sha256 now db rows).skeletons ≡ get k db.skeletons
  unfolding prune_all prune_one contains
  prune_all-skeleton_of_other db [] k h = refl
  prune_all-skeleton_of_other db (row ∷ rows) k h = ground (
    arith,
    prune_all-skeleton_of_other (prune_one sha256 now db row) rows k,
    get-put (id_of row) k (skeleton_of sha256 now row) db.skeletons,
  )

  prune_all-skeletons :
      (db : Database) (rows : List StoredEvent)
      → nodup (row_ids rows) ≡ true
      → All
          (λ row.
            get (id_of row) (prune_all sha256 now db rows).skeletons
            ≡ some (skeleton_of sha256 now row))
          rows
  unfolding prune_all prune_one nodup
  prune_all-skeletons db [] h = tt
  prune_all-skeletons db (row ∷ rows) h = (
    prune_all-skeleton_of_other (prune_one sha256 now db row) rows (id_of row) (ground arith)
        ∙ get-put_self (id_of row) (skeleton_of sha256 now row) db.skeletons,
    prune_all-skeletons (prune_one sha256 now db row) rows (ground arith),
  )

  -- With distinct event ids, pruning removes exactly the events that the checkpoint covers, that are
  -- old enough and that are not of a class that is kept; the edges stay as they were.
  pub prune_removes_eligible :
      (confirmed_round : ℕ) (age_threshold : Time) (keep_class_a : Bool) (db : Database)
      → nodup (row_ids db.events) ≡ true
      → ((prune_under_checkpoint sha256 now confirmed_round age_threshold keep_class_a db).1.events
          ≡ keep
              (λ row. not (is_eligible confirmed_round age_threshold keep_class_a row))
              db.events)
        × ((prune_under_checkpoint sha256 now confirmed_round age_threshold keep_class_a db).1.edges
            ≡ db.edges)
  unfolding prune_under_checkpoint
  prune_removes_eligible confirmed_round age_threshold keep_class_a db h =
      let test = is_eligible confirmed_round age_threshold keep_class_a in
      let by_round : StoredEvent → ℕ = λ row. round_or_zero row.event.round_received in
      let rows = sort_on by_round (keep test db.events) in
      (
        prune_all-events db rows
            ∙ keep-unselected test db.events (row_ids rows) h
                (contains-row_ids-sort_on by_round (keep test db.events)),
        prune_all-edges db rows,
      )

  -- With distinct event ids, every pruned event has a skeleton: its class, parents and round, and
  -- the hash of its payload.
  pub pruned_have_skeletons :
      (confirmed_round : ℕ) (age_threshold : Time) (keep_class_a : Bool) (db : Database)
      → nodup (row_ids db.events) ≡ true
      → All
          (λ row.
            get
              (id_of row)
              (prune_under_checkpoint sha256 now confirmed_round age_threshold keep_class_a
                db).1.skeletons
            ≡ some (skeleton_of sha256 now row))
          (prune_under_checkpoint sha256 now confirmed_round age_threshold keep_class_a db).0
  unfolding prune_under_checkpoint
  pruned_have_skeletons confirmed_round age_threshold keep_class_a db h =
      let test = is_eligible confirmed_round age_threshold keep_class_a in
      let by_round : StoredEvent → ℕ = λ row. round_or_zero row.event.round_received in
      prune_all-skeletons db (sort_on by_round (keep test db.events))
        (nodup-row_ids-sort_on by_round (keep test db.events) ∙ nodup-row_ids-keep test db.events h)
