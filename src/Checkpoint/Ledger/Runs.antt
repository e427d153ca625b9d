-- ===== src/Checkpoint/Ledger/Runs.antt =====
-- Runs of checkpoint operations: what stays of a row, when a row is confirmed, and what unsigned
-- proposals do.
use hashgraph.Prelude.{
  ℕ, ◌≡◌, inl, inr, refl, sym, ap, ◌∙◌, subst, String, true, false, ◌&&◌, not, Option, none, some,
  List, [], arith, string_eq, nat_eq, ◌==◌, Bool-cases, count_if_mono,
}
use hashgraph.Dict.{Dict, get, put, has}
use hashgraph.Models.{Time}
use hashgraph.Checkpoint.{CheckpointProposal, Hashes, is_quorum_reached, member_set, signed_count}
use hashgraph.Checkpoint.Quorum.{is_quorum_reached_iff}
use hashgraph.Checkpoint.Ledger.{
  is_confirmed, Checkpoint, Ledger, with_created, get_checkpoint, stored_signatures, was_confirmed,
  with_signature, signed_row, is_mismatch, record_proposal_signature,
}
use hashgraph.Checkpoint.Ledger.Safety.{
  Steps, done, one_more, Effect, recorded, untouched, effect, Extends, Extends-refl, Extends-trans,
  row_after, row_after-Extends, get-record, has-put,
}

Kept : ℕ → Checkpoint → Ledger → Type 0
Kept r old l = (new : Checkpoint) × (get_checkpoint r l.checkpoints ≡ some new) × Extends old new

record-Kept :
    (members : List String) (now : Time) (p : CheckpointProposal) (l : Ledger) (r : ℕ)
    (old : Checkpoint)
    → get_checkpoint r l.checkpoints ≡ some old
    → Kept r old (record_proposal_signature members now p l)
unfolding Kept
record-Kept members now p l r old h =
    let existing = get_checkpoint p.round_received l.checkpoints in
    elim (Bool-cases (not (is_mismatch existing p.merkle_root) && (p.round_received == r))) [
      | inl hit ↦
          let same = (nat_eq.beq_iff p.round_received r).0 (ground arith) in
          let e = subst (λ k. get_checkpoint k l.checkpoints ≡ some old) (sym same) h in
          (
            row_after members now p (some old),
            ground (arith, get-record members now p l r),
            row_after-Extends members now p old (ground arith),
          )
      | inr miss ↦ (old, ground (arith, get-record members now p l r), Extends-refl old)
    ]

step-Kept :
    (members : List String) (a b : Ledger) (r : ℕ) (old : Checkpoint)
    → Effect members a b
    → get_checkpoint r a.checkpoints ≡ some old
    → Kept r old b
unfolding Kept
step-Kept members a b r old (recorded now p e) h =
    subst (Kept r old) e (record-Kept members now p a r old h)
step-Kept members a b r old (untouched e c) h =
    (old, ap (get_checkpoint r) (sym e) ∙ h, Extends-refl old)

-- Over any run of checkpoint operations with fixed members, a round that has a checkpoint keeps
-- it: the digest and the creation time never change, a confirmed checkpoint stays confirmed, and
-- no name leaves the signers (the signature under a name may be replaced).
pub checkpoint_kept :
    (hashes : Hashes) (members : List String) (a b : Ledger) (r : ℕ) (old : Checkpoint)
    → Steps hashes members a b
    → get_checkpoint r a.checkpoints ≡ some old
    → (new : Checkpoint) × (get_checkpoint r b.checkpoints ≡ some new) × Extends old new
unfolding Kept
checkpoint_kept hashes members a _ r old done h = (old, h, Extends-refl old)
checkpoint_kept hashes members a c r old (one_more {b = b} first rest) h =
    let (mid, g, e) = step-Kept members a b r old (effect first) h in
    let (new, g', e') = checkpoint_kept hashes members b c r mid rest g in
    (new, g', Extends-trans e e')

abbrev pub empty_ledger : Ledger
empty_ledger = record { checkpoints = []; confirmed_count = 0; tamper_evidence = false }

ByQuorum : List String → Ledger → Type 0
ByQuorum members l =
    (r : ℕ) (row : Checkpoint)
    → get_checkpoint r l.checkpoints ≡ some row
    → is_confirmed row.status ≡ is_quorum_reached row.signatures members

-- One more signature does not undo a quorum.
quorum-put :
    (k v : String) (d : Dict String String) (members : List String)
    → is_quorum_reached d members ≡ true
    → is_quorum_reached (put k v d) members ≡ true
unfolding signed_count
quorum-put k v d members h =
    let (some_member, enough) = (is_quorum_reached_iff d members).0 h in
    (is_quorum_reached_iff (put k v d) members).1 (
      some_member,
      omega (
        arith,
        enough,
        count_if_mono (λ m. has m d) (λ m. has m (put k v d)) (member_set members)
            (λ m t. ground (arith, has-put k m v d)),
      ),
    )

row_after-quorum :
    (members : List String) (now : Time) (p : CheckpointProposal) (existing : Option Checkpoint)
    → ((old : Checkpoint)
        → existing ≡ some old
        → is_confirmed old.status ≡ is_quorum_reached old.signatures members)
    → is_confirmed (row_after members now p existing).status
      ≡ is_quorum_reached (row_after members now p existing).signatures members
unfolding with_created signed_row with_signature stored_signatures was_confirmed is_confirmed
row_after-quorum members now p none h = ground arith
row_after-quorum members now p (some old) h =
    let e = h old refl in
    ground (arith, quorum-put p.proposer_node_id p.signature old.signatures members)

step-ByQuorum :
    {members : List String} {a b : Ledger}
    → Effect members a b
    → ByQuorum members a
    → ByQuorum members b
unfolding ByQuorum
step-ByQuorum {members} {a} (untouched e c) h = λ r row g. h r row (ap (get_checkpoint r) e ∙ g)
step-ByQuorum {members} {a} (recorded now p e) h = subst (ByQuorum members) e λ r row g.
    let existing = get_checkpoint p.round_received a.checkpoints in
    let q = row_after-quorum members now p existing (h p.round_received) in
    ground (arith, get-record members now p a r, h r row)

Steps-ByQuorum :
    {hashes : Hashes} {members : List String} {a b : Ledger}
    → Steps hashes members a b
    → ByQuorum members a
    → ByQuorum members b
Steps-ByQuorum done h = h
Steps-ByQuorum (one_more first rest) h = Steps-ByQuorum rest (step-ByQuorum (effect first) h)

-- On a node with fixed members that starts without checkpoints, after any run of operations a
-- checkpoint is confirmed exactly when its signatures reach the quorum.
pub confirmed_by_quorum :
    (hashes : Hashes) (members : List String) (l : Ledger) (r : ℕ) (row : Checkpoint)
    → Steps hashes members empty_ledger l
    → get_checkpoint r l.checkpoints ≡ some row
    → is_confirmed row.status ≡ is_quorum_reached row.signatures members
unfolding ByQuorum get_checkpoint get
confirmed_by_quorum hashes members l r row run h = Steps-ByQuorum run (λ s other g. cc) r row h
