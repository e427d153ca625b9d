-- ===== src/Checkpoint/Digest.antt =====
-- The digest of a set of events does not depend on the order in which the database lists them.
use mathlib.Core.List.{Permᴰ}
use hashgraph.Prelude.{
  ◌≡◌, ap, true, false, List, [], ◌∷◌, map, arith, string_eq, nat_ord, text_ord, pair_ord, nodup,
  contains, AllApart, KeysApart, sort_on-Permᴰ, nat_eq,
}
use hashgraph.Models.{Event}
use hashgraph.Checkpoint.{Hashes, compute_merkle_root, leaf_key, event_leaf_hash, joined}
use hashgraph.Consensus.Rounds.Final.{ids}

keys_apart :
    (hashes : Hashes) (es : List Event) → nodup (ids es) ≡ true → KeysApart (leaf_key hashes) es
unfolding nodup contains
keys_apart hashes [] h = tt
keys_apart hashes (e ∷ es) h = (apart es (ground arith), keys_apart hashes es (ground arith))
  where
    apart :
        (l : List Event)
        → contains (ids l) e.id ≡ false
        → AllApart (leaf_key hashes) (leaf_key hashes e) l
    apart [] k = tt
    apart (d ∷ l) k = (
      (λ same. ground (arith, string_eq.beq_iff d.id e.id, ap (λ q. q.1) same)),
      apart l (ground arith),
    )

-- Two nodes whose databases hold the same events, each id once, compute the same digest, whatever
-- order each of them lists the events in.
pub compute_merkle_root_agrees :
    (hashes : Hashes) (es ds : List Event)
    → Permᴰ es ds
    → nodup (ids es) ≡ true
    → compute_merkle_root hashes es ≡ compute_merkle_root hashes ds
unfolding compute_merkle_root
compute_merkle_root_agrees hashes es ds p h =
    ap (λ l. hashes.sha256 (joined hashes (map (event_leaf_hash hashes) l)))
      (sort_on-Permᴰ _ p (keys_apart hashes es h))
