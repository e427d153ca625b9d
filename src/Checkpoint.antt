-- ===== src/Checkpoint.antt =====
-- mdrj/checkpoint.py: proposals, the digest of the events, and the quorum of signatures.
pub mod Quorum
pub mod Digest
pub mod Ledger
use hashgraph.Prelude.{
  ℕ, zero, suc, ◌+◌, ◌*◌, ◌/◌, ◌≡◌, String, Bool, true, false, ◌&&◌, not, Option, none, some, List,
  [], ◌∷◌, map, string_eq, nat_eq, nat_ord, text_ord, pair_ord, leb, if◌then◌else◌, length, keep,
  count_if, set_of, is_empty, sort_on, ◌==◌,
}
use Prim.Native.String.{◌++◌ as ◌+++◌}
use hashgraph.Dict.{Dict, has}
use hashgraph.Models.{Event, EventClass, Time, Json}

pub record CheckpointProposal : Type 0 where
  pub round_received : ℕ
  pub merkle_root : String
  pub members_snapshot_hash : String
  pub proposer_node_id : String
  pub signature : String

-- The part of a proposal that is signed.
pub record ProposalBody : Type 0 where
  pub round_received : ℕ
  pub merkle_root : String
  pub members_snapshot_hash : String

unfoldable pub canonical_body : CheckpointProposal → ProposalBody
canonical_body p = record {
  round_received = p.round_received;
  merkle_root = p.merkle_root;
  members_snapshot_hash = p.members_snapshot_hash;
}

-- What the hash of an event covers.
pub record LeafBody : Type 0 where
  pub id : String
  pub cls : EventClass
  pub creator : String
  pub parents : List String
  pub consensus_ts : Option Time
  pub round_received : Option ℕ
  pub payload_hash : String

-- The standard library's JSON encoder and hashes: canonical JSON of the three kinds of object that
-- are hashed here, the hexadecimal SHA-256 of a text, and the hexadecimal HMAC of a key and a text.
pub record Hashes : Type 0 where
  pub payload_json : Dict String Json → String
  pub leaf_json : LeafBody → String
  pub body_json : ProposalBody → String
  pub sha256 : String → String
  pub hmac : String → String → String

-- -1 before 0, 1, ...: the place of a round among the sort keys.
abbrev pub round_key : Option ℕ → ℕ
round_key none = 0
round_key (some r) = suc r

module _ (hashes : Hashes) where
  unfoldable pub leaf_body : Event → LeafBody
  leaf_body event = record {
    id = event.id;
    cls = event.cls;
    creator = event.creator;
    parents = event.parents;
    consensus_ts = event.consensus_ts;
    round_received = event.round_received;
    payload_hash = hashes.sha256 (hashes.payload_json event.payload);
  }

  unfoldable pub event_leaf_hash : Event → String
  unfolding leaf_body
  event_leaf_hash event = hashes.sha256 (hashes.leaf_json (leaf_body event))

  abbrev pub joined : List String → String
  joined [] = ""
  joined (leaf ∷ leaves) = leaf +++ joined leaves

  abbrev pub leaf_key : Event → ℕ × String
  leaf_key event = (round_key event.round_received, event.id)

  unfoldable pub compute_merkle_root : List Event → String
  unfolding event_leaf_hash
  compute_merkle_root events =
      hashes.sha256 (joined (map event_leaf_hash (sort_on leaf_key events)))

  unfoldable pub sign_proposal : CheckpointProposal → String → String
  unfolding canonical_body
  sign_proposal proposal hmac_key =
      hashes.hmac hmac_key (hashes.body_json (canonical_body proposal))

  unfoldable pub verify_proposal_signature : CheckpointProposal → String → String → Bool
  unfolding sign_proposal
  verify_proposal_signature proposal signature hmac_key =
      sign_proposal proposal hmac_key == signature

-- {m for m in members if m}
unfoldable pub member_set : List String → List String
member_set members = set_of (keep (λ m. not (m == "")) members)

-- sum(1 for m in member_set if m in signatures)
unfoldable pub signed_count : Dict String String → List String → ℕ
signed_count signatures members = count_if (λ m. has m signatures) members

-- At least two thirds of the members signed.
unfoldable pub is_quorum_reached : Dict String String → List String → Bool
unfolding member_set signed_count
is_quorum_reached signatures members =
    let members' = member_set members in
    not (is_empty members')
    && leb ((2 * length members' + 2) / 3) (signed_count signatures members')
