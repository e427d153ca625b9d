-- ===== src/Tests/Clocks.antt =====
-- Runs of the laws of vector clocks.
use hashgraph.Prelude.{◌≡◌, refl, true, contains, keep}
use hashgraph.Dict.{get, get_or}
use hashgraph.VectorClock.{relation, happened_before, is_before, dominates, verdict, key_union}
use hashgraph.Tests.Samples.{clock_a, clock_ab, clock_abc}

before_ab : happened_before clock_a clock_ab ≡ true
unfolding happened_before relation dominates verdict key_union is_before get_or get keep contains
before_ab = refl

before_abc : happened_before clock_ab clock_abc ≡ true
unfolding happened_before relation dominates verdict key_union is_before get_or get keep contains
before_abc = refl
