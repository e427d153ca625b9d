-- ===== src/Lib.antt =====
-- mdrj: a log of security events that nodes keep in common. Each node signs and gossips events that
-- name their parents (a hashgraph), recomputes rounds, fame and a total order of the events it
-- holds, and confirms checkpoints of the ordered events by a quorum of the members.
--
-- How the files correspond to the code (paths from the repository's root):
--   Prelude        Boolean tests, lists over native numbers, orders, Python's `sorted`, `set`,
--                  `str.strip` and decimal notation, and results of calls that raise
--   Dict           Python's `dict` as an association list in insertion order
--   VectorClock    mdrj/vectorclock.py, the class VectorClock and merge_all
--   Models         mdrj/models.py, Event, Envelope and their enumerations; Models/Create is
--                  Event.create, Models/Row an event as a row of the database (to_record,
--                  from_record) and Models/Wire an envelope as a message (to_dict, from_dict)
--   Consensus      mdrj/consensus.py, the class ConsensusEngine; its children are the methods:
--                  Membership (_normalize_membership, _supermajority_threshold), Ancestry
--                  (_ancestor_ids, _can_see), Rounds (the first loop of recompute and
--                  _sees_supermajority), Fame (_fame_vote_history_and_decisions and
--                  _resolve_fame_from_vote_history), Received (_round_received), Timestamp
--                  (_consensus_timestamp, and median of mdrj/utils.py), Order (total_order) and
--                  Recompute (recompute, which composes them)
--   Checkpoint     mdrj/checkpoint.py; Checkpoint/Ledger holds propose_local_checkpoint,
--                  _record_proposal_signature, ingest_checkpoint_proposal and verify_checkpoint of
--                  mdrj/node.py on the table of upsert_checkpoint and get_checkpoint of
--                  mdrj/storage.py
--   Prioritization mdrj/prioritization.py, the class Prioritizer and the plan of a batch
--   Gossip         mdrj/gossip.py, the queue of pending events and _tick of the class GossipEngine
--   Storage        mdrj/storage.py, prune_under_checkpoint and gc_by_quota on the tables of events,
--                  envelopes, edges and skeletons, Storage/Insert, what writes and reads events
--                  (store_envelope, replace_consensus_state), Storage/Toposort, the
--                  topological sort of the events, and Storage/Peers, the table of peers
--   Auth           mdrj/auth.py: Auth/Passwords (hash_password, verify_password) and Auth/Sessions
--                  (SessionStore); Auth/Users, the table of users and what mdrj/node.py does with it;
--                  Auth/Accounts, the requests on accounts of mdrj/api.py (handle_login and others);
--                  Auth/Access, its two middlewares
--   Node           mdrj/node.py: Node/Peers (the registry and the active peers), Node/Emit
--                  (emit_event), Node/Recompute (_recompute_consensus, which composes the
--                  topological sort, the consensus pass and the writing of its states; the members
--                  are an argument), Node/Members (_membership_entries_from_registry) and
--                  Node/Retention (run_retention_once and the check for tampering, which composes
--                  Storage and Checkpoint/Ledger)
--   Tests          runs of the theorems on small inputs
--
-- A state that the code changes is an argument and part of the result: the dicts of recompute are
-- the record RoundState, the table of checkpoints with the node's counter and its tamper flag the
-- record Ledger. Loops are structural recursion over the list they run over. Two recursions
-- take fuel. The loop of toposort takes the number of events, since each turn places one event.
-- _ancestor_ids takes fuel of its caller: _can_see gives it the number of known events, which is shown
-- to be enough wherever parent links between known events have no cycle; a parent may be missing.
--
-- Arguments that stand for code outside the repository: hashlib and hmac (`sha256`, `hmac`, the fields
-- of the records Hashes and Digests), the JSON encoder and decoder of the columns of an event (the
-- record Codec), scrypt, Base64 and `int` of a text (the record Crypto), random tokens, salts and
-- choices, str.lower (`lower`), the canonical JSON text of the three kinds of object that are hashed, the
-- size of a JSON text (`bytes_cost`, `size`), the product of a count of bytes and a period as doubles
-- (`in_period`) and the half of the sum of two doubles (`midpoint`). A time is the place of a finite non-negative
-- double among those doubles, which keeps its order; -1 stands before 0 among sort keys as 0 before
-- the successors, and the key of a missing value comes last. Half the sum of two times lies between
-- them only where the sum is finite; the theorem on timestamps has a limit for it.
--
-- Bounds: the events of a recomputation have distinct ids, as in the table where the id is the
-- primary key, and rounds are not negative. The members of a node, which the code reads from its
-- peers, are an argument of the checkpoint operations, and a run of them has fixed members. The time
-- before which events are old enough to prune is an argument. Rows of one age keep their order in
-- the table, where SQLite leaves it open; so do the ids that the topological sort reads.
--
-- A request to the API is served at one instant, and the accounts are what its handlers share.
--
-- Not modelled: the pages of the HTTP interface and its other handlers, the command line,
-- configuration, collectors of host events, discovery, notification and metrics, which are input and
-- output; incidents, and the loops and the ingestion of the node.
pub mod Prelude
pub mod Dict
pub mod VectorClock
pub mod Models
pub mod Consensus
pub mod Checkpoint
pub mod Prioritization
pub mod Gossip
pub mod Storage
pub mod Auth
pub mod Node
pub mod Tests
