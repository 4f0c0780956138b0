-- ===== src/Cluster/Consistency.antt =====
-- internal/cluster/consistency.go: how many replicas must answer.
use magnitude.Common.{
  ℕ, ◌+◌, ◌/◌, ◌<◌, ◌≤◌, ◌≡◌, refl, String, Option, none, some, ltb, leb, ◌==◌, string_keyed,
  if◌then◌else◌, arith,
}

pub data ConsistencyLevel : Type 0 where
  one quorum all : ConsistencyLevel

unfoldable pub to_string : ConsistencyLevel → String
to_string one = "one"
to_string quorum = "quorum"
to_string all = "all"

-- `none` is the error for any other text.
unfoldable pub parse_consistency_level : String → Option ConsistencyLevel
parse_consistency_level s =
    if s == "one"
    then some one
    else if s == ""
    then some one
    else if s == "quorum"
    then some quorum
    else if s == "all"
    then some all
    else none

-- A replication factor of 0 or less is taken as 1.
unfoldable pub resolve_consistency : ConsistencyLevel → ℕ → ℕ
resolve_consistency level rf =
    let n = if leb rf 0 then 1 else rf in
    elim level [ quorum ↦ if ltb n (n / 2 + 1) then n else n / 2 + 1 | all ↦ n | one ↦ 1 ]

-- The number of replicas asked for is at least 1 and at most the replication factor, if that is
-- positive, and grows with the level.
pub resolve_consistency_bounds :
    (rf : ℕ)
    → 0 < rf
    → (1 ≤ resolve_consistency one rf)
      × (resolve_consistency one rf ≤ resolve_consistency quorum rf)
      × (resolve_consistency quorum rf ≤ resolve_consistency all rf)
      × (resolve_consistency all rf ≤ rf)
unfolding resolve_consistency
resolve_consistency_bounds rf h = ground arith

-- A write and a read whose levels overlap reach a common replica: two quorums together, or all
-- replicas with any other level, exceed the replication factor.
pub quorums_overlap :
    (rf : ℕ)
    → 0 < rf
    → (rf < resolve_consistency quorum rf + resolve_consistency quorum rf)
      × ((level : ConsistencyLevel)
          → rf < resolve_consistency all rf + resolve_consistency level rf)
unfolding resolve_consistency
quorums_overlap rf h = (ground arith, all_with)
  where
    all_with :
        (level : ConsistencyLevel) → rf < resolve_consistency all rf + resolve_consistency level rf
    all_with one = ground arith
    all_with quorum = ground arith
    all_with all = ground arith

-- Every level is read back from its name.
pub parse-to_string :
    (level : ConsistencyLevel) → parse_consistency_level (to_string level) ≡ some level
unfolding parse_consistency_level to_string
parse-to_string one = refl
parse-to_string quorum = refl
parse-to_string all = refl
