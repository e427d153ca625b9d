-- ===== src/Node/Retention.antt =====
-- mdrj/node.py `run_retention_once` and the check of `_verify_once_and_alert`, with
-- `latest_confirmed_checkpoint` of mdrj/storage.py. The archive file is left out.
pub mod Tampering
use hashgraph.Prelude.{
  ℕ, ◌≡◌, refl, sym, ◌∙◌, ap, String, Bool, true, false, ◌&&◌, ◌||◌, not, Option, none, some, List,
  [], ◌∷◌, map, string_eq, nat_eq, nat_ord, arith, if◌then◌else◌, ◌==◌, ltb, leb, keep, length,
  nodup, sort_on, All, All-sort_on, Result, ok, err, is_empty, is_some, Bool-cases, inl, inr, subst,
}
use hashgraph.Dict.{Dict, get, put}
use hashgraph.Models.{Event, Time}
use hashgraph.Checkpoint.{Hashes}
use hashgraph.Checkpoint.Ledger.{
  Status, is_confirmed, Checkpoint, Table, Ledger, CheckpointError, VerificationReport, is_covered,
  events_up_to_round_received, report_on, verify_checkpoint, get_checkpoint,
}
use hashgraph.Storage.{StoredEvent, Database, is_eligible, within_round, prune_under_checkpoint}
use hashgraph.Storage.Rows.{row_ids}
use hashgraph.Storage.Prune.{prune_removes_eligible}
use hashgraph.Storage.Insert.{read_back, all_events}

-- The later of two confirmed checkpoints.
abbrev pub later_of : ℕ × Checkpoint → Option (ℕ × Checkpoint) → Option (ℕ × Checkpoint)
later_of c none = some c
later_of c (some d) = if leb d.0 c.0 then some c else some d

-- WHERE status = 'confirmed' ORDER BY round_received DESC LIMIT 1
unfoldable pub latest_confirmed_checkpoint : Table → Option (ℕ × Checkpoint)
latest_confirmed_checkpoint [] = none
latest_confirmed_checkpoint (c ∷ table) =
    let rest = latest_confirmed_checkpoint table in
    if is_confirmed c.1.status then later_of c rest else rest

pub record RetentionSettings : Type 0 where
  pub enabled : Bool
  pub keep_class_a : Bool

pub data RetentionReport : Type 0 where
  disabled no_confirmed_checkpoint : RetentionReport
  pruned : ℕ → ℕ → RetentionReport

-- `age_threshold` is the time of the pass less the greatest age.
module _ (sha256 : String → String) (now : Time) (settings : RetentionSettings)
    (age_threshold : Time) where
  unfoldable pub prune_to : Option (ℕ × Checkpoint) → Database → RetentionReport × Database
  prune_to none db = (no_confirmed_checkpoint, db)
  prune_to (some latest) db =
      let (rows, left) =
        prune_under_checkpoint sha256 now latest.0 age_threshold settings.keep_class_a db in
      (pruned (length rows) latest.0, left)

  unfoldable pub run_retention_once : Table → Database → RetentionReport × Database
  unfolding latest_confirmed_checkpoint prune_to
  run_retention_once table db =
      if settings.enabled then prune_to (latest_confirmed_checkpoint table) db else (disabled, db)

module _ (hashes : Hashes) where
  abbrev reported :
      Ledger
      → Result CheckpointError (VerificationReport hashes × Ledger)
      → Option (VerificationReport hashes) × Ledger
  reported ledger (err e) = (none, ledger)
  reported ledger (ok r) = (some r.0, r.1)

  unfoldable pub verify_latest :
      Option (ℕ × Checkpoint) → Database → Ledger → Option (VerificationReport hashes) × Ledger
  verify_latest none db ledger = (none, ledger)
  verify_latest (some latest) db ledger =
      reported ledger (verify_checkpoint hashes latest.0 (all_events db.events) ledger)

  -- The report that `_verify_once_and_alert` acts on, and the ledger with its flag.
  unfoldable pub verify_once : Database → Ledger → Option (VerificationReport hashes) × Ledger
  unfolding latest_confirmed_checkpoint verify_latest
  verify_once db ledger = verify_latest (latest_confirmed_checkpoint ledger.checkpoints) db ledger
