-- ===== src/Checkpoint/Ledger/Ingest.antt =====
-- What becomes of a received proposal, on every branch of `ingest_checkpoint_proposal` and
-- `_record_proposal_signature`.
use hashgraph.Prelude.{
  ℕ, ◌≡◌, ◌≢◌, ◌⊎◌, refl, sym, ◌∙◌, ap, String, true, false, ◌||◌, not, Option, none, some, List,
  arith, string_eq, nat_eq, if◌then◌else◌, ◌==◌, Result, ok, err, Bool-cases, inl, inr,
}
use hashgraph.Dict.{get, get-put}
use hashgraph.Models.{Time}
use hashgraph.Checkpoint.{
  CheckpointProposal, Hashes, is_quorum_reached, sign_proposal, verify_proposal_signature,
}
use hashgraph.Checkpoint.Ledger.{
  CheckpointError, invalid_signature, is_confirmed, Checkpoint, Ledger, get_checkpoint,
  record_proposal_signature, ingest_checkpoint_proposal, usable_key, is_refused, is_mismatch,
  with_signature, signed_row, with_created, stored_signatures, was_confirmed,
}
use hashgraph.Checkpoint.Ledger.Safety.{get-record, row_after}

-- The ledger after a proposal that is recorded: the row of its round has its digest, the signatures
-- there were with the proposer's put in, and is confirmed where it was or where they reach the
-- quorum; the rows of other rounds are as they were.
pub record IsRecordedIn (members : List String) (p : CheckpointProposal) (l after : Ledger)
    : Type 0 where
  pub row : Checkpoint
  pub rows :
      (r : ℕ)
      → get_checkpoint r after.checkpoints
        ≡ (if p.round_received == r then some row else get_checkpoint r l.checkpoints)
  pub root : row.merkle_root ≡ p.merkle_root
  pub signers :
      (m : String)
      → get m row.signatures ≡ (
          if p.proposer_node_id == m
          then some p.signature
          else get m (stored_signatures (get_checkpoint p.round_received l.checkpoints)))
  pub status : is_confirmed row.status ≡ (
      is_quorum_reached row.signatures members
      || was_confirmed (get_checkpoint p.round_received l.checkpoints))

root_of :
    (members : List String) (now : Time) (p : CheckpointProposal) (o : Option Checkpoint)
    → (row_after members now p o).merkle_root ≡ p.merkle_root
unfolding signed_row with_created
root_of members now p none = refl
root_of members now p (some old) = refl

signers_of :
    (members : List String) (now : Time) (p : CheckpointProposal) (m : String)
    (o : Option Checkpoint)
    → get m (row_after members now p o).signatures
      ≡ (if p.proposer_node_id == m then some p.signature else get m (stored_signatures o))
unfolding signed_row with_created with_signature
signers_of members now p m none = get-put p.proposer_node_id m p.signature (stored_signatures none)
signers_of members now p m (some old) =
    get-put p.proposer_node_id m p.signature (stored_signatures (some old))

status_of :
    (members : List String) (now : Time) (p : CheckpointProposal) (o : Option Checkpoint)
    → is_confirmed (row_after members now p o).status
      ≡ (is_quorum_reached (row_after members now p o).signatures members || was_confirmed o)
unfolding signed_row with_created was_confirmed is_confirmed
status_of members now p none = ground arith
status_of members now p (some old) = ground arith

record-IsRecordedIn :
    (members : List String) (now : Time) (p : CheckpointProposal) (l : Ledger)
    → is_mismatch (get_checkpoint p.round_received l.checkpoints) p.merkle_root ≡ false
    → IsRecordedIn members p l (record_proposal_signature members now p l)
record-IsRecordedIn members now p l h = record {
  row = row_after members now p (get_checkpoint p.round_received l.checkpoints);
  rows = λ r. ground (arith, get-record members now p l r, h);
  root = root_of members now p (get_checkpoint p.round_received l.checkpoints);
  signers = λ m. signers_of members now p m (get_checkpoint p.round_received l.checkpoints);
  status = status_of members now p (get_checkpoint p.round_received l.checkpoints);
}

-- What receiving a proposal comes to.
pub data Received (hashes : Hashes) (key : String) (members : List String) (p : CheckpointProposal)
    (l : Ledger) (result : Result CheckpointError Ledger) : Type 0 where
  refused :
      p.signature ≢ ""
      → p.signature ≢ sign_proposal hashes p key
      → result ≡ err invalid_signature
      → Received hashes key members p l result
  ignored :
      (p.signature ≡ "") ⊎ (p.signature ≡ sign_proposal hashes p key)
      → (old : Checkpoint) → get_checkpoint p.round_received l.checkpoints ≡ some old
      → old.merkle_root ≢ p.merkle_root
      → result ≡ ok l
      → Received hashes key members p l result
  recorded :
      (p.signature ≡ "") ⊎ (p.signature ≡ sign_proposal hashes p key)
      → (after : Ledger) → IsRecordedIn members p l after
      → result ≡ ok after
      → Received hashes key members p l result

record_ignored :
    (members : List String) (now : Time) (p : CheckpointProposal) (l : Ledger)
    → is_mismatch (get_checkpoint p.round_received l.checkpoints) p.merkle_root ≡ true
    → record_proposal_signature members now p l ≡ l
unfolding record_proposal_signature
record_ignored members now p l h = rw h refl

mismatched :
    (o : Option Checkpoint) (root : String)
    → is_mismatch o root ≡ true
    → (old : Checkpoint) × (o ≡ some old) × (old.merkle_root ≢ root)
unfolding is_mismatch
mismatched none root h = cc
mismatched (some old) root h =
    (old, refl, λ e. cc (h, ap not ((string_eq.beq_iff old.merkle_root root).1 e)))

let_in :
    (hashes : Hashes) (key : String) (members : List String) (now : Time) (p : CheckpointProposal)
    (l : Ledger)
    → is_refused hashes (some key) p ≡ false
    → (p.signature ≡ "") ⊎ (p.signature ≡ sign_proposal hashes p key)
    → Received hashes key members p l (ingest_checkpoint_proposal hashes (some key) members now p l)
unfolding ingest_checkpoint_proposal
let_in hashes key members now p l h signed =
    let runs : ingest_checkpoint_proposal hashes (some key) members now p l
        ≡ ok (record_proposal_signature members now p l) =
      ap (λ b. if b then err invalid_signature else ok (record_proposal_signature members now p l))
        h in
    elim (Bool-cases (is_mismatch (get_checkpoint p.round_received l.checkpoints) p.merkle_root)) [
      | inl other ↦
          let (old, found, differs) =
            mismatched (get_checkpoint p.round_received l.checkpoints) p.merkle_root other in
          ignored signed old found differs (runs ∙ ap ok (record_ignored members now p l other))
      | inr same ↦
          recorded signed (record_proposal_signature members now p l)
            (record-IsRecordedIn members now p l same) runs
    ]

pub ingest_cases :
    (hashes : Hashes) (key : String) (members : List String) (now : Time) (p : CheckpointProposal)
    (l : Ledger)
    → key ≢ ""
    → Received hashes key members p l (ingest_checkpoint_proposal hashes (some key) members now p l)
unfolding ingest_checkpoint_proposal is_refused usable_key verify_proposal_signature
ingest_cases hashes key members now p l k =
    let a = string_eq.beq_iff key "" in
    let b = string_eq.beq_iff p.signature "" in
    let c = string_eq.beq_iff (sign_proposal hashes p key) p.signature in
    elim (Bool-cases (p.signature == "")) [
      | inl h ↦ let_in hashes key members now p l (ground (arith, a.0)) (inl (b.0 h))
      | inr h ↦ elim (Bool-cases (sign_proposal hashes p key == p.signature)) [
        | inl s ↦ let_in hashes key members now p l (ground (arith, a.0)) (inr (sym (c.0 s)))
        | inr s ↦
            refused (λ e. ground (arith, b.1 e)) (λ e. ground (arith, c.1 (sym e)))
              (ground (arith, a.0))
      ]
    ]
