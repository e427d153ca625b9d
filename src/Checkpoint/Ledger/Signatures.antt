-- ===== src/Checkpoint/Ledger/Signatures.antt =====
-- Proposals without a signature, received one after the other.
use hashgraph.Prelude.{
  ℕ, ◌<◌, ◌≡◌, refl, ◌∙◌, String, Bool, true, false, ◌&&◌, ◌||◌, not, Option, none, some, List, [],
  ◌∷◌, map, arith, string_eq, nat_eq, if◌then◌else◌, ◌==◌, Result, ok, err, ◌>>=◌, count_if, length,
  keep, beq_self, contains, set_of, contains-set_of, contains-keep,
}
use hashgraph.Dict.{Dict, get, has}
use hashgraph.Models.{Time}
use hashgraph.Checkpoint.{
  CheckpointProposal, Hashes, is_quorum_reached, member_set, signed_count,
  verify_proposal_signature,
}
use hashgraph.Checkpoint.Quorum.{is_quorum_reached_iff}
use hashgraph.Checkpoint.Ledger.{
  CheckpointError, invalid_signature, is_confirmed, Checkpoint, Ledger, get_checkpoint,
  record_proposal_signature, ingest_checkpoint_proposal, usable_key, is_refused, is_mismatch,
  with_signature, signed_row, with_created, stored_signatures,
}
use hashgraph.Checkpoint.Ledger.Safety.{
  Steps, done, one_more, ingest, get-record, row_after, has-put,
}
use hashgraph.Checkpoint.Ledger.Runs.{empty_ledger, confirmed_by_quorum}

-- A proposal without a signature, in a member's name.
pub unsigned : ℕ → String → String → String → CheckpointProposal
unsigned r root members_hash m = record {
  round_received = r;
  merkle_root = root;
  members_snapshot_hash = members_hash;
  proposer_node_id = m;
  signature = "";
}

ingest_unsigned_ok :
    (hashes : Hashes) (key : Option String) (members : List String) (now : Time)
    (p : CheckpointProposal) (l : Ledger)
    → p.signature ≡ ""
    → ingest_checkpoint_proposal hashes key members now p l
      ≡ ok (record_proposal_signature members now p l)
unfolding ingest_checkpoint_proposal is_refused
ingest_unsigned_ok hashes key members now p l h =
    go (usable_key key) ((string_eq.beq_iff p.signature "").1 h)
  where
    go :
        (k : Option String)
        → (p.signature == "") ≡ true
        → (if elim k [
          | none ↦ false
          | some hmac_key ↦
              not (p.signature == "")
              && not (verify_proposal_signature hashes p p.signature hmac_key)
        ]
            then err invalid_signature
            else ok (record_proposal_signature members now p l))
          ≡ ok (record_proposal_signature members now p l)
    go none e = refl
    go (some k) e = ground (arith, e)

-- The proposals of a list, received one after the other.
unfoldable pub ingest_all :
    Hashes
    → Option String
    → List String
    → Time
    → List CheckpointProposal
    → Ledger
    → Result CheckpointError Ledger
ingest_all hashes key members now [] l = ok l
ingest_all hashes key members now (p ∷ ps) l =
    ingest_checkpoint_proposal hashes key members now p l >>= ingest_all hashes key members now ps

get-record_unsigned :
    (members : List String) (now : Time) (r : ℕ) (root mh m : String) (l : Ledger)
    (o : Option Checkpoint)
    → get_checkpoint r l.checkpoints ≡ o
    → is_mismatch o root ≡ false
    → get_checkpoint r (record_proposal_signature members now (unsigned r root mh m) l).checkpoints
      ≡ some (row_after members now (unsigned r root mh m) o)
unfolding unsigned
get-record_unsigned members now r root mh m l o e h =
    ground (arith, get-record members now (unsigned r root mh m) l r, beq_self r)

-- What the proposals of a list of names, received one after the other, come to.
record Outcome (hashes : Hashes) (key : Option String) (members : List String) (now : Time) (r : ℕ)
    (root mh : String) (ms : List String) (l : Ledger) (signatures : Dict String String)
    : Type 0 where
  after : Ledger
  row : Checkpoint
  runs : ingest_all hashes key members now (map (unsigned r root mh) ms) l ≡ ok after
  steps : Steps hashes members l after
  there : get_checkpoint r after.checkpoints ≡ some row
  signs : (m : String) → (contains ms m || has m signatures) ≡ true → has m row.signatures ≡ true

is_mismatch-same :
    (row : Checkpoint) (root : String)
    → row.merkle_root ≡ root
    → is_mismatch (some row) root ≡ false
unfolding is_mismatch
is_mismatch-same row root e = ground (arith, (string_eq.beq_iff row.merkle_root root).1 e)

row_after-root :
    (members : List String) (now : Time) (r : ℕ) (root mh m : String) (o : Option Checkpoint)
    → (row_after members now (unsigned r root mh m) o).merkle_root ≡ root
unfolding unsigned signed_row with_created
row_after-root members now r root mh m none = refl
row_after-root members now r root mh m (some row) = refl

with_one_name :
    (members : List String) (now : Time) (r : ℕ) (root mh m : String) (ms : List String)
    (o : Option Checkpoint) (n : String)
    → (contains (m ∷ ms) n || has n (stored_signatures o)) ≡ true
    → (contains ms n || has n (row_after members now (unsigned r root mh m) o).signatures) ≡ true
unfolding contains unsigned signed_row with_signature with_created stored_signatures
with_one_name members now r root mh m ms none n h = ground (arith, has-put m n "" [])
with_one_name members now r root mh m ms (some row) n h =
    ground (arith, has-put m n "" row.signatures)

with_one :
    (hashes : Hashes) (key : Option String) (members : List String) (now : Time) (r : ℕ)
    (root mh m : String) (ms : List String) (l : Ledger) (o : Option Checkpoint)
    → get_checkpoint r l.checkpoints ≡ o
    → is_mismatch o root ≡ false
    → Outcome hashes key members now r root mh ms
        (record_proposal_signature members now (unsigned r root mh m) l)
        (row_after members now (unsigned r root mh m) o).signatures
    → Outcome hashes key members now r root mh (m ∷ ms) l (stored_signatures o)
unfolding ingest_all contains unsigned
with_one hashes key members now r root mh m ms l o g e rest =
    let accepted = ingest_unsigned_ok hashes key members now (unsigned r root mh m) l refl in
    record {
      after = rest.after;
      row = rest.row;
      runs = rw accepted rest.runs;
      steps = one_more (ingest key now (unsigned r root mh m) accepted) rest.steps;
      there = rest.there;
      signs = λ n h. rest.signs n (with_one_name members now r root mh m ms o n h);
    }

all_unsigned :
    (hashes : Hashes) (key : Option String) (members : List String) (now : Time) (r : ℕ)
    (root mh : String) (ms : List String) (l : Ledger) (row : Checkpoint)
    → get_checkpoint r l.checkpoints ≡ some row
    → row.merkle_root ≡ root
    → Outcome hashes key members now r root mh ms l row.signatures
unfolding ingest_all contains stored_signatures
all_unsigned hashes key members now r root mh [] l row g e = record {
  after = l;
  row = row;
  runs = refl;
  steps = done;
  there = g;
  signs = λ m h. h;
}
all_unsigned hashes key members now r root mh (m ∷ ms) l row g e =
    let p = unsigned r root mh m in
    let same = is_mismatch-same row root e in
    with_one hashes key members now r root mh m ms l (some row) g same (
      all_unsigned hashes key members now r root mh ms (record_proposal_signature members now p l)
        (row_after members now p (some row))
        (get-record_unsigned members now r root mh m l (some row) g same)
        (row_after-root members now r root mh m (some row)))

from_empty :
    (hashes : Hashes) (key : Option String) (members : List String) (now : Time) (r : ℕ)
    (root mh : String) (ms : List String)
    → 0 < length (member_set ms)
    → Outcome hashes key members now r root mh ms empty_ledger []
unfolding member_set keep set_of get_checkpoint get is_mismatch stored_signatures
from_empty hashes key members now r root mh [] h = absurd (omega arith)
from_empty hashes key members now r root mh (m ∷ ms) h =
    let p = unsigned r root mh m in
    with_one hashes key members now r root mh m ms empty_ledger none refl refl (
      all_unsigned hashes key members now r root mh ms
        (record_proposal_signature members now p empty_ledger) (row_after members now p none)
        (get-record_unsigned members now r root mh m empty_ledger none refl refl)
        (row_after-root members now r root mh m none))

count_all :
    (p : String → Bool) (ms : List String)
    → ((m : String) → contains ms m ≡ true → p m ≡ true)
    → count_if p ms ≡ length ms
unfolding count_if contains
count_all p [] h = refl
count_all p (m ∷ ms) h =
    let one : p m ≡ true = h m (ground (arith, beq_self m)) in
    ground (arith, one, count_all p ms (λ n c. h n (ground (arith, c))))

all_signed :
    (members : List String) (d : Dict String String)
    → 0 < length (member_set members)
    → ((m : String) → contains members m ≡ true → has m d ≡ true)
    → is_quorum_reached d members ≡ true
unfolding signed_count member_set
all_signed members d h k =
    let c =
      count_all (λ m. has m d) (member_set members)
        (λ m t. k m (
          ground (
            arith,
            contains-set_of (keep (λ n. not (n == "")) members) m,
            contains-keep (λ n. not (n == "")) members m,
          ))) in
    (is_quorum_reached_iff d members).1 (h, omega (arith, c))

-- Any party, without the key: for each round and digest, one proposal without a signature in the
-- name of each member, of which there is one at least, is enough to have the checkpoint of that
-- round confirmed on a node that has no checkpoints, whatever key the node is configured with.
pub unsigned_proposals_confirm :
    (hashes : Hashes) (key : Option String) (members : List String) (now : Time) (r : ℕ)
    (root mh : String)
    → 0 < length (member_set members)
    → (after : Ledger) × (row : Checkpoint) × (ingest_all hashes key members now
          (map (unsigned r root mh) members)
          empty_ledger
        ≡ ok after)
      × (get_checkpoint r after.checkpoints ≡ some row)
      × (is_confirmed row.status ≡ true)
unsigned_proposals_confirm hashes key members now r root mh h =
    let o = from_empty hashes key members now r root mh members h in
    (
      o.after,
      o.row,
      o.runs,
      o.there,
      confirmed_by_quorum hashes members o.after r o.row o.steps o.there
          ∙ all_signed members o.row.signatures h (λ m c. o.signs m (ground (arith, c))),
    )
