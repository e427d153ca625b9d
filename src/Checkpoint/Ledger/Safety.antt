-- ===== src/Checkpoint/Ledger/Safety.antt =====
-- What no sequence of checkpoint operations does to the table of a node, and what confirms a row.
use hashgraph.Prelude.{
  ℕ, ◌≡◌, refl, ap, ◌∙◌, String, Bool, true, false, ◌&&◌, ◌||◌, not, Option, none, some, List,
  arith, string_eq, nat_eq, if◌then◌else◌, ◌==◌, Result, ok, err,
}
use hashgraph.Dict.{Dict, get, put, has, get-put}
use hashgraph.Models.{Event, Time}
use hashgraph.Checkpoint.{CheckpointProposal, Hashes}
use hashgraph.Checkpoint.Ledger.{
  no_checkpoint, is_confirmed, Checkpoint, Ledger, with_created, get_checkpoint, upsert_checkpoint,
  stored_signatures, was_confirmed, with_signature, signed_row, is_mismatch,
  record_proposal_signature, propose_local_checkpoint, ingest_checkpoint_proposal,
  verify_checkpoint, usable_key, VerificationReport,
}

-- One operation on the checkpoints of a node whose members are fixed.
pub data Step (hashes : Hashes) (members : List String) (before after : Ledger) : Type 0 where
  propose :
      (node_id : String) (key : Option String) (members_hash : String) (now : Time) (target : ℕ)
      (events : List Event) (proposal : CheckpointProposal)
      → propose_local_checkpoint hashes node_id key members members_hash now target events before
        ≡ ok (proposal, after)
      → Step hashes members before after
  ingest :
      (key : Option String) (now : Time) (p : CheckpointProposal)
      → ingest_checkpoint_proposal hashes key members now p before ≡ ok after
      → Step hashes members before after
  verify :
      (r : ℕ) (events : List Event) (report : VerificationReport hashes)
      → verify_checkpoint hashes r events before ≡ ok (report, after)
      → Step hashes members before after

pub data Steps (hashes : Hashes) (members : List String) : Ledger → Ledger → Type 0 where
  done : {l : Ledger} → Steps hashes members l l
  one_more :
      {a b c : Ledger}
      → Step hashes members a b
      → Steps hashes members b c
      → Steps hashes members a c

-- What an operation does to the table: it records one proposal, or nothing.
pub data Effect (members : List String) (before after : Ledger) : Type 0 where
  recorded :
      (now : Time) (p : CheckpointProposal)
      → record_proposal_signature members now p before ≡ after
      → Effect members before after
  untouched :
      before.checkpoints ≡ after.checkpoints
      → before.confirmed_count ≡ after.confirmed_count
      → Effect members before after

-- A call that raises on a test and did not raise.
was_ok {ℓ κ} :
    {E : Type ℓ} {A : Type κ} (test : Bool) (e : E) (a b : A)
    → (if test then err e else ok a) ≡ ok b
    → a ≡ b
was_ok true e a b h = cc
was_ok false e a b h = cc

-- A call that raises without a value and did not raise.
had_value {ℓ κ μ} :
    {E : Type ℓ} {A : Type κ} {B : Type μ} (o : Option B) (e : E) (f : B → Result E A) (a : A)
    → elim o [ none ↦ err e | some b ↦ f b ] ≡ ok a
    → (b : B) × f b ≡ ok a
had_value none e f a h = cc
had_value (some b) e f a h = (b, h)

pub effect :
    {hashes : Hashes} {members : List String} {a b : Ledger}
    → Step hashes members a b
    → Effect members a b
unfolding propose_local_checkpoint ingest_checkpoint_proposal verify_checkpoint
effect (propose node_id key members_hash now target events proposal h) =
    recorded now _ (ap (λ p. p.1) (was_ok _ _ _ _ (had_value (usable_key key) _ _ _ h).1))
effect (ingest key now p h) = recorded now p (was_ok _ _ _ _ h)
effect {a = a} (verify r events report h) =
    let e = was_ok false no_checkpoint _ _ (had_value (get_checkpoint r a.checkpoints) _ _ _ h).1 in
    untouched (ap (λ p. p.1.checkpoints) e) (ap (λ p. p.1.confirmed_count) e)

-- The row of a round after later operations: the digest and the creation time are the same, a
-- confirmed row is still confirmed, and who has signed still counts as a signer. What stands under
-- a signer's name may be replaced by a later proposal in that name.
pub record Extends (old new : Checkpoint) : Type 0 where
  pub same_root : old.merkle_root ≡ new.merkle_root
  pub same_creation : old.created_at ≡ new.created_at
  pub stays_confirmed : (not (is_confirmed old.status) || is_confirmed new.status) ≡ true
  pub keeps_signers : (m : String) → (not (has m old.signatures) || has m new.signatures) ≡ true

pub Extends-refl : (row : Checkpoint) → Extends row row
Extends-refl row = record {
  same_root = refl;
  same_creation = refl;
  stays_confirmed = ground arith;
  keeps_signers = λ m. ground arith;
}

pub Extends-trans : {a b c : Checkpoint} → Extends a b → Extends b c → Extends a c
Extends-trans h k = record {
  same_root = h.same_root ∙ k.same_root;
  same_creation = h.same_creation ∙ k.same_creation;
  stays_confirmed = ground (arith, h.stays_confirmed, k.stays_confirmed);
  keeps_signers = λ m. ground (arith, h.keeps_signers m, k.keeps_signers m);
}

-- The row that a recorded proposal leaves.
abbrev pub row_after : List String → Time → CheckpointProposal → Option Checkpoint → Checkpoint
row_after members now p existing = with_created existing now (signed_row existing p members now)

pub has-put : (k m v : String) (d : Dict String String) → has m (put k v d) ≡ (k == m || has m d)
unfolding has
has-put k m v d = ground (arith, get-put k m v d)

pub row_after-Extends :
    (members : List String) (now : Time) (p : CheckpointProposal) (old : Checkpoint)
    → is_mismatch (some old) p.merkle_root ≡ false
    → Extends old (row_after members now p (some old))
unfolding with_created signed_row is_mismatch with_signature stored_signatures was_confirmed
    is_confirmed
row_after-Extends members now p old h = record {
  same_root = ground (arith, string_eq.beq_iff old.merkle_root p.merkle_root);
  same_creation = refl;
  stays_confirmed = ground arith;
  keeps_signers = λ m. ground (arith, has-put p.proposer_node_id m p.signature old.signatures);
}

-- The row of every round after a proposal is recorded.
pub get-record :
    (members : List String) (now : Time) (p : CheckpointProposal) (l : Ledger) (r : ℕ)
    → get_checkpoint r (record_proposal_signature members now p l).checkpoints ≡ (
        if not (is_mismatch (get_checkpoint p.round_received l.checkpoints) p.merkle_root)
          && (p.round_received == r)
        then some (row_after members now p (get_checkpoint p.round_received l.checkpoints))
        else get_checkpoint r l.checkpoints)
unfolding record_proposal_signature upsert_checkpoint get_checkpoint
get-record members now p l r = ground (
  arith,
  get-put p.round_received r (row_after members now p (get p.round_received l.checkpoints))
      l.checkpoints,
)
