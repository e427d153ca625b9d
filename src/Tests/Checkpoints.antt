-- ===== src/Tests/Checkpoints.antt =====
-- Runs of the theorems on checkpoints.
use hashgraph.Prelude.{
  ◌*◌, ◌≤◌, ◌≡◌, refl, String, true, ◌&&◌, none, some, [], ◌∷◌, map, arith, string_eq, nat_eq,
  contains, length, keep, set_of, count_if, ok,
}
use hashgraph.Dict.{Dict, has, get, put}
use hashgraph.Checkpoint.{is_quorum_reached, member_set, signed_count}
use hashgraph.Checkpoint.Quorum.{quorum_overlap}
use hashgraph.Checkpoint.Ledger.{
  Checkpoint, Ledger, pending, confirmed, is_confirmed, get_checkpoint, upsert_checkpoint,
  record_proposal_signature, ingest_checkpoint_proposal, is_refused, usable_key, is_mismatch,
  signed_row, with_signature, with_created, stored_signatures, was_confirmed, stored_confirmed_at,
}
use hashgraph.Checkpoint.Ledger.Safety.{Steps, done, one_more, ingest, Extends}
use hashgraph.Checkpoint.Ledger.Runs.{empty_ledger, checkpoint_kept, confirmed_by_quorum}
use hashgraph.Checkpoint.Ledger.Ingest.{Received, ingest_cases}
use hashgraph.Checkpoint.Ledger.Signatures.{unsigned, ingest_all, unsigned_proposals_confirm}
use hashgraph.Tests.Samples.{three, hashes, proposal_of}

abbrev signed_ab : Dict String String
signed_ab = ("a", "x") ∷ ("b", "y") ∷ []

abbrev signed_bc : Dict String String
signed_bc = ("b", "y") ∷ ("c", "z") ∷ []

quorum_overlap_example :
    length (member_set three)
    ≤ 3 * count_if (λ m. has m signed_ab && has m signed_bc) (member_set three)
unfolding is_quorum_reached member_set signed_count has get keep set_of contains count_if
quorum_overlap_example = quorum_overlap signed_ab signed_bc three refl refl

-- The first proposal for round 1, and a second one.
abbrev first_ledger : Ledger
first_ledger = record_proposal_signature three 7 (proposal_of "a" "") empty_ledger

abbrev second_ledger : Ledger
second_ledger = record_proposal_signature three 8 (proposal_of "b" "") first_ledger

abbrev first_row : Checkpoint
first_row = record {
  merkle_root = "root";
  members_snapshot_hash = "members";
  signatures = ("a", "") ∷ [];
  status = pending;
  confirmed_at = none;
  created_at = 7;
}

abbrev second_row : Checkpoint
second_row = record {
  merkle_root = "root";
  members_snapshot_hash = "members";
  signatures = ("a", "") ∷ ("b", "") ∷ [];
  status = confirmed;
  confirmed_at = some 8;
  created_at = 7;
}

second_step : Steps hashes three first_ledger second_ledger
unfolding ingest_checkpoint_proposal is_refused usable_key
second_step = one_more (ingest none 8 (proposal_of "b" "") refl) done

both-Steps : Steps hashes three empty_ledger second_ledger
unfolding ingest_checkpoint_proposal is_refused usable_key
both-Steps = one_more (ingest none 7 (proposal_of "a" "") refl) second_step

checkpoint_kept_example :
    (new : Checkpoint) × (get_checkpoint 1 second_ledger.checkpoints ≡ some new)
    × Extends first_row new
unfolding record_proposal_signature is_mismatch upsert_checkpoint signed_row get_checkpoint get put
    with_created with_signature stored_signatures was_confirmed stored_confirmed_at
    is_quorum_reached member_set signed_count has keep set_of contains count_if
checkpoint_kept_example =
    checkpoint_kept hashes three first_ledger second_ledger 1 first_row second_step refl

confirmed_by_quorum_example :
    is_confirmed second_row.status ≡ is_quorum_reached second_row.signatures three
unfolding record_proposal_signature is_mismatch upsert_checkpoint signed_row get_checkpoint get put
    with_created with_signature stored_signatures was_confirmed stored_confirmed_at
    is_quorum_reached member_set signed_count has keep set_of contains count_if
confirmed_by_quorum_example =
    confirmed_by_quorum hashes three second_ledger 1 second_row both-Steps refl

ingest_cases_example :
    Received hashes "key" three (proposal_of "a" "forged") first_ledger (
      ingest_checkpoint_proposal hashes
        (some "key")
        three
        7
        (proposal_of "a" "forged")
        first_ledger)
ingest_cases_example =
    ingest_cases hashes "key" three 7 (proposal_of "a" "forged") first_ledger (λ e. cc)

unsigned_proposals_confirm_example :
    (after : Ledger) × (row : Checkpoint) × (ingest_all hashes
        (some "key")
        three
        7
        (map (unsigned 1 "root" "members") three)
        empty_ledger
      ≡ ok after)
    × (get_checkpoint 1 after.checkpoints ≡ some row)
    × (is_confirmed row.status ≡ true)
unfolding member_set keep set_of contains
unsigned_proposals_confirm_example =
    unsigned_proposals_confirm hashes (some "key") three 7 1 "root" "members" (omega arith)
