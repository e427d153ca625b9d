-- ===== src/Node/Retention/Tampering.antt =====
-- Retention removes what the verification of a confirmed checkpoint needs.
use hashgraph.Prelude.{
  some_inj, ℕ, ◌≡◌, refl, sym, String, Bool, true, false, not, Option, none, some, List, [], ◌∷◌,
  map, string_eq, nat_eq, nat_ord, arith, if◌then◌else◌, leb, keep, nodup, All, All-sort_on,
  Bool-cases, inl, inr, subst,
}
use hashgraph.Models.{Event, Time}
use hashgraph.Checkpoint.{Hashes}
use hashgraph.Checkpoint.Ledger.{
  is_confirmed, Checkpoint, Table, Ledger, is_covered, events_up_to_round_received, report_on,
  verify_checkpoint, get_checkpoint,
}
use hashgraph.Storage.{StoredEvent, Database, is_eligible, prune_under_checkpoint}
use hashgraph.Storage.Rows.{row_ids}
use hashgraph.Storage.Prune.{prune_removes_eligible}
use hashgraph.Storage.Insert.{read_back, all_events}
use hashgraph.Node.Retention.{
  later_of, latest_confirmed_checkpoint, RetentionSettings, disabled, prune_to, run_retention_once,
  reported, verify_latest, verify_once,
}

covered_read_back :
    (target : ℕ) (event : Event) → is_covered target (read_back event) ≡ is_covered target event
unfolding is_covered read_back
covered_read_back target event = refl

-- What the latest confirmed checkpoint is: confirmed.
later_confirmed :
    (c d : ℕ × Checkpoint) (rest : Option (ℕ × Checkpoint))
    → is_confirmed c.1.status ≡ true
    → ((e : ℕ × Checkpoint) → rest ≡ some e → is_confirmed e.1.status ≡ true)
    → later_of c rest ≡ some d
    → is_confirmed d.1.status ≡ true
later_confirmed c d none k f h = subst (λ z. is_confirmed z.1.status ≡ true) (some_inj h) k
later_confirmed c d (some e) k f h = elim (Bool-cases (leb e.0 c.0)) [
  | inl q ↦ subst (λ z. is_confirmed z.1.status ≡ true) (some_inj (rw q at h)) k
  | inr q ↦ subst (λ z. is_confirmed z.1.status ≡ true) (some_inj (rw q at h)) (f e refl)
]

latest_is_confirmed :
    (table : Table) (c : ℕ × Checkpoint)
    → latest_confirmed_checkpoint table ≡ some c
    → is_confirmed c.1.status ≡ true
unfolding latest_confirmed_checkpoint
latest_is_confirmed [] c h = cc
latest_is_confirmed (d ∷ table) c h = elim (Bool-cases (is_confirmed d.1.status)) [
  | inl q ↦
      later_confirmed d c (latest_confirmed_checkpoint table) q (latest_is_confirmed table)
        (rw q at h)
  | inr q ↦ latest_is_confirmed table c (rw q at h)
]

uncovered_events :
    (target : ℕ) (rows : List StoredEvent)
    → All (λ row. is_covered target row.event ≡ false) rows
    → events_up_to_round_received target (map (λ row. read_back row.event) rows) ≡ []
unfolding events_up_to_round_received keep
uncovered_events target [] a = refl
uncovered_events target (row ∷ rows) a =
    rw (covered_read_back target row.event, a.0) (uncovered_events target rows a.1)

not_covered : (b c : Bool) → (b ≡ true → c ≡ true) → c ≡ false → b ≡ false
not_covered b c h k = ground arith

kept_uncovered :
    (target : ℕ) (age_threshold : Time) (keep_class_a : Bool) (rows : List StoredEvent)
    → All
        (λ row.
          is_covered target row.event ≡ true
          → is_eligible target age_threshold keep_class_a row ≡ true)
        rows
    → All
        (λ row. is_covered target row.event ≡ false)
        (keep (λ row. not (is_eligible target age_threshold keep_class_a row)) rows)
unfolding keep
kept_uncovered target age_threshold keep_class_a [] a = tt
kept_uncovered target age_threshold keep_class_a (row ∷ rows) a =
    elim (Bool-cases (is_eligible target age_threshold keep_class_a row)) [
      | inl q ↦ rw q (kept_uncovered target age_threshold keep_class_a rows a.1)
      | inr q ↦
          rw q (not_covered _ _ a.0 q, kept_uncovered target age_threshold keep_class_a rows a.1)
    ]

-- A confirmed checkpoint without events is taken for tampering.
nothing_left :
    (hashes : Hashes) (target : ℕ) (row : Checkpoint) (events : List Event) (ledger : Ledger)
    → get_checkpoint target ledger.checkpoints ≡ some row
    → is_confirmed row.status ≡ true
    → events_up_to_round_received target events ≡ []
    → (reported hashes ledger (verify_checkpoint hashes target events ledger)).1.tamper_evidence
      ≡ true
unfolding verify_checkpoint report_on
nothing_left hashes target row events ledger found confirmed none_left =
    rw (verify_checkpoint, found, none_left, confirmed) refl

module _ (hashes : Hashes) (sha256 : String → String) (now : Time) (settings : RetentionSettings)
    (age_threshold : Time) where
  run-latest :
      (table : Table) (db : Database) (latest : ℕ × Checkpoint)
      → settings.enabled ≡ true
      → latest_confirmed_checkpoint table ≡ some latest
      → (run_retention_once sha256 now settings age_threshold table db).1
        ≡ (prune_under_checkpoint sha256 now latest.0 age_threshold settings.keep_class_a db).1
  unfolding run_retention_once prune_to
  run-latest table db latest on h =
      subst
        (λ b.
          (if b
            then prune_to sha256 now settings age_threshold (latest_confirmed_checkpoint table) db
            else (disabled, db)).1
          ≡ (prune_under_checkpoint sha256 now latest.0 age_threshold settings.keep_class_a db).1)
        (sym on) (rw h refl)

  nothing_covered :
      (db : Database) (target : ℕ)
      → nodup (row_ids db.events) ≡ true
      → All
          (λ r.
            is_covered target r.event ≡ true
            → is_eligible target age_threshold settings.keep_class_a r ≡ true)
          db.events
      → events_up_to_round_received target (
          all_events
            (prune_under_checkpoint sha256 now target age_threshold settings.keep_class_a
              db).1.events)
        ≡ []
  unfolding all_events
  nothing_covered db target once a =
      rw ((prune_removes_eligible sha256 now target age_threshold settings.keep_class_a db once).0)
        (uncovered_events target _ (
          All-sort_on _ (λ (r : StoredEvent). is_covered target r.event ≡ false) _
            (kept_uncovered target age_threshold settings.keep_class_a db.events a)))

  -- Where retention is on and may remove every event that the latest confirmed checkpoint covers, the
  -- verification after it reports tampering, although nothing but retention has touched the events.
  pub retention_reports_tampering :
      (db : Database) (ledger : Ledger) (target : ℕ) (row : Checkpoint)
      → settings.enabled ≡ true
      → nodup (row_ids db.events) ≡ true
      → latest_confirmed_checkpoint ledger.checkpoints ≡ some (target, row)
      → get_checkpoint target ledger.checkpoints ≡ some row
      → All
          (λ r.
            is_covered target r.event ≡ true
            → is_eligible target age_threshold settings.keep_class_a r ≡ true)
          db.events
      → (verify_once hashes
          (run_retention_once sha256 now settings age_threshold ledger.checkpoints db).1
          ledger).1.tamper_evidence
        ≡ true
  unfolding verify_once verify_latest
  retention_reports_tampering db ledger target row on once latest found a =
      rw (latest, run-latest ledger.checkpoints db (target, row) on latest)
        (nothing_left hashes target row _ ledger found
          (latest_is_confirmed ledger.checkpoints (target, row) latest)
          (nothing_covered db target once a))
