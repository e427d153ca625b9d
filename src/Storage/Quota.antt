-- ===== src/Storage/Quota.antt =====
-- What `gc_by_quota` leaves.
use hashgraph.Prelude.{
  ℕ, ◌-◌, ◌*◌, ◌≤◌, ◌≡◌, refl, sym, ◌∙◌, ap, String, Bool, true, false, not, List, [], ◌∷◌, arith,
  string_eq, nat_ord, keep, contains, nodup, sort_on, insert_on, All, Bool-cases, inl, inr,
  beq_self, leb, subst,
}
use hashgraph.Storage.{
  StoredEvent, Database, id_of, usage, victims, delete_event, delete_all, gc_by_quota,
}
use hashgraph.Storage.Rows.{
  row_ids, is_among, keep_all, keep_cong, keep-without_event, nodup-row_ids-sort_on,
}

module _ (size : StoredEvent → ℕ) where
  usage-keep-insert_on :
      (f : StoredEvent → ℕ) (p : StoredEvent → Bool) (x : StoredEvent) (xs : List StoredEvent)
      → usage size (keep p (insert_on f x xs)) ≡ usage size (keep p (x ∷ xs))
  unfolding usage keep insert_on
  usage-keep-insert_on f p x [] = refl
  usage-keep-insert_on f p x (y ∷ xs) = ground (arith, usage-keep-insert_on f p x xs)

  usage-keep-sort_on :
      (f : StoredEvent → ℕ) (p : StoredEvent → Bool) (xs : List StoredEvent)
      → usage size (keep p (sort_on f xs)) ≡ usage size (keep p xs)
  unfolding usage keep sort_on
  usage-keep-sort_on f p [] = refl
  usage-keep-sort_on f p (x ∷ xs) =
      usage-keep-insert_on f p x (sort_on f xs) ∙ ground (arith, usage-keep-sort_on f p xs)

  not_first :
      (y : StoredEvent) (ids : List String) (xs : List StoredEvent)
      → contains (row_ids xs) (id_of y) ≡ false
      → All (λ x. not (is_among (id_of y ∷ ids) x) ≡ not (is_among ids x)) xs
  unfolding contains
  not_first y ids [] h = tt
  not_first y ids (x ∷ xs) h = (
    ground (arith, string_eq.beq_iff (id_of x) (id_of y), string_eq.beq_iff (id_of y) (id_of x)),
    not_first y ids xs (ground arith),
  )

  keep-first :
      (y : StoredEvent) (ids : List String) (xs : List StoredEvent)
      → keep (λ x. not (is_among (id_of y ∷ ids) x)) (y ∷ xs)
        ≡ keep (λ x. not (is_among (id_of y ∷ ids) x)) xs
  unfolding keep contains
  keep-first y ids xs = ground (arith, beq_self (id_of y))

  -- What the victims leave fits.
  victims_fit :
      (target total : ℕ) (ys : List StoredEvent)
      → nodup (row_ids ys) ≡ true
      → total ≡ usage size ys
      → usage size (keep (λ x. not (is_among (row_ids (victims size target total ys)) x)) ys)
        ≤ target
  unfolding usage victims nodup contains keep
  victims_fit target total [] h e = omega arith
  victims_fit target total (y ∷ ys) h e = elim (Bool-cases (leb total target)) [
    | inl fits ↦
        let none_go : victims size target total (y ∷ ys) ≡ [] = rw fits refl in
        let all_fit : usage size (keep (λ x. true) (y ∷ ys)) ≤ target =
          subst (λ kept. usage size kept ≤ target) (sym (keep_all (y ∷ ys)))
            (ground (arith, e, fits)) in
        subst (λ v. usage size (keep (λ x. not (is_among (row_ids v) x)) (y ∷ ys)) ≤ target)
          (sym none_go) all_fit
    | inr over ↦
        let v = row_ids (victims size target (total - size y) ys) in
        let rest = victims_fit target (total - size y) ys (ground arith) (omega (arith, e)) in
        let same = keep_cong _ _ ys (not_first y v ys (ground arith)) in
        let y_goes : victims size target total (y ∷ ys)
            ≡ y ∷ victims size target (total - size y) ys =
          rw over refl in
        subst (λ w. usage size (keep (λ x. not (is_among (row_ids w) x)) (y ∷ ys)) ≤ target)
          (sym y_goes)
          (subst (λ kept. usage size kept ≤ target) (sym (keep-first y v ys ∙ same)) rest)
  ]

  delete_all-events :
      (db : Database) (rows : List StoredEvent)
      → (delete_all size db rows).events ≡ keep (λ x. not (is_among (row_ids rows) x)) db.events
  unfolding delete_all delete_event contains
  delete_all-events db [] = sym (keep_all db.events)
  delete_all-events db (row ∷ rows) =
      delete_all-events (delete_event size db row) rows
      ∙ keep-without_event (id_of row) (row_ids rows) db.events

  -- With distinct event ids, after the collection the payloads take no more than the quota.
  pub gc_by_quota_fits :
      (memory_mb : ℕ) (db : Database)
      → nodup (row_ids db.events) ≡ true
      → usage size (gc_by_quota size memory_mb db).1.events ≤ memory_mb * 1024 * 1024
  unfolding gc_by_quota
  gc_by_quota_fits memory_mb db h =
      let target = memory_mb * 1024 * 1024 in
      let by_age : StoredEvent → ℕ = λ row. row.created_at in
      let sorted = sort_on by_age db.events in
      let to_delete = victims size target (usage size db.events) sorted in
      elim (Bool-cases (leb (usage size db.events) target)) [
        | inl fits ↦ rw fits (ground (arith, fits))
        | inr over ↦
            let total : usage size db.events ≡ usage size sorted =
              ap (usage size) (sym (keep_all db.events))
              ∙ sym (usage-keep-sort_on by_age (λ x. true) db.events)
              ∙ ap (usage size) (keep_all sorted) in
            let small =
              victims_fit target (usage size db.events) sorted
                (nodup-row_ids-sort_on by_age db.events ∙ h) total in
            rw
              (
                over,
                delete_all-events db to_delete,
                ← usage-keep-sort_on by_age (λ x. not (is_among (row_ids to_delete) x)) db.events,
              )
              small
      ]
