-- ===== src/Tests/Orders.antt =====
-- Runs of the theorems on the total order, the recomputation and the digest.
use mathlib.Core.List.{Perm, Permᴰ}
use hashgraph.Prelude.{
  ◌≡◌, refl, [], ◌∷◌, map, string_eq, nat_ord, text_ord, option_ord, pair_ord, contains, nodup,
  IsSortedOn,
}
use hashgraph.Models.{Time}
use hashgraph.Consensus.Rounds.Final.{ids}
use hashgraph.Consensus.Order.{total_order}
use hashgraph.Consensus.Order.Laws.{total_order_agrees}
use hashgraph.Consensus.Recompute.{ConsensusState, recompute}
use hashgraph.Consensus.Recompute.Output.{recompute-order}
use hashgraph.Tests.Samples.{topo, first_event, second_event, digest, entries}

swapped : Permᴰ topo (second_event ∷ first_event ∷ [])
swapped = Permᴰ.swap refl refl

total_order_agrees_example : total_order [] topo ≡ total_order [] (second_event ∷ first_event ∷ [])
unfolding nodup contains
total_order_agrees_example =
    total_order_agrees [] topo (second_event ∷ first_event ∷ []) swapped refl refl

abbrev lower : Time → Time → Time
lower a b = a

recompute-order_example :
    Perm (map (λ s. s.event_id) (recompute digest lower "a" entries [] topo)) (ids topo)
    × IsSortedOn
        (λ (s : ConsensusState). s.round_received)
        (recompute digest lower "a" entries [] topo)
unfolding nodup contains
recompute-order_example = recompute-order digest lower "a" entries [] topo refl
