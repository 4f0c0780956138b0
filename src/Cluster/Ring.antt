-- ===== src/Cluster/Ring.antt =====
-- internal/cluster/hash.go: consistent hashing with virtual nodes. `sum32` stands for the first four
-- bytes of SHA-256 of a text, and `vnode_name` for `fmt.Sprintf("%s#%d", ...)`, which are not
-- code of the repository. `sort.Slice` of numbers is insertion sort, whose result is the only
-- sorted one; `sort.Search` returns the first index that passes a test.
pub mod Owners
pub mod Removal
pub mod Routing
pub mod Replicas
use magnitude.Common.{
  ℕ, zero, suc, ◌+◌, Bool, true, false, not, ◌&&◌, String, Option, none, some, List, [], ◌∷◌, ◌++◌,
  length, get_elem?, take, drop, ltb, leb, ◌==◌, nat_keyed, string_keyed, if◌then◌else◌,
}
use magnitude.Common.Dict
use magnitude.Common.Dict.{Dict}
use magnitude.Common.Keys.{has}

pub record HashRing : Type 0 where
  pub vnodes : ℕ
  pub ring : List ℕ
  pub node_map : Dict ℕ String
  pub nodes : Dict String Bool

unfoldable pub new_ring : ℕ → HashRing
new_ring vnodes = record {
  vnodes = if leb vnodes 0 then 150 else vnodes;
  ring = [];
  node_map = [];
  nodes = [];
}

-- `h.nodes[nodeID]`
abbrev pub flag : Option Bool → Bool
flag none = false
flag (some b) = b

unfoldable pub is_member : HashRing → String → Bool
is_member h node_id = flag (Dict.lookup node_id h.nodes)

unfoldable pub insert_sorted : ℕ → List ℕ → List ℕ
insert_sorted x [] = x ∷ []
insert_sorted x (y ∷ ys) = if leb x y then x ∷ y ∷ ys else y ∷ insert_sorted x ys

unfoldable pub sort : List ℕ → List ℕ
unfolding insert_sorted
sort [] = []
sort (x ∷ xs) = insert_sorted x (sort xs)

-- The owner of a position, the empty text if it has none.
abbrev pub text_or_empty : Option String → String
text_or_empty none = ""
text_or_empty (some s) = s

unfoldable pub owner_at : HashRing → ℕ → String
owner_at h pos = text_or_empty (Dict.lookup pos h.node_map)

-- One virtual node: a position that another node owns is skipped.
unfoldable pub taken_by_other : HashRing → ℕ → String → Bool
taken_by_other h hash node_id = elim (Dict.lookup hash h.node_map) [
  | none ↦ false
  | some existing ↦ not (existing == node_id)
]

unfoldable pub add_vnode : HashRing → ℕ → String → HashRing
unfolding taken_by_other
add_vnode h hash node_id =
    if taken_by_other h hash node_id
    then h
    else record h { ring = h.ring ++ hash ∷ []; node_map = Dict.insert hash node_id h.node_map }

module _ (sum32 : String → ℕ) (vnode_name : String → ℕ → String) where
  -- The loop of `AddNode` over the virtual nodes `i`, ..., with `left` of them to go.
  unfoldable pub add_vnodes : ℕ → ℕ → String → HashRing → HashRing
  unfolding add_vnode
  add_vnodes zero i node_id h = h
  add_vnodes (suc left) i node_id h =
      add_vnodes left (i + 1) node_id (add_vnode h (sum32 (vnode_name node_id i)) node_id)

  unfoldable pub add_node : HashRing → String → HashRing
  add_node h node_id =
      if is_member h node_id
      then h
      else let added =
          add_vnodes h.vnodes 0 node_id (record h { nodes = Dict.insert node_id true h.nodes }) in
        record added { ring = sort added.ring }

-- The loop of `RemoveNode`: positions of other nodes stay, those of the node leave the map.
unfoldable pub keep_others : String → List ℕ → Dict ℕ String → List ℕ × Dict ℕ String
keep_others node_id [] m = ([], m)
keep_others node_id (hash ∷ hs) m = elim (text_or_empty (Dict.lookup hash m) == node_id) [
  | true ↦ keep_others node_id hs (Dict.delete hash m)
  | false ↦ let (ring, left) = keep_others node_id hs m in (hash ∷ ring, left)
]

-- `make([]uint32, 0, len(h.ring)-h.vnodes)` panics on a negative capacity.
unfoldable pub removal_panics : HashRing → String → Bool
removal_panics h node_id = is_member h node_id && ltb (length h.ring) h.vnodes

-- The result where the removal does not panic.
unfoldable pub remove_node : HashRing → String → HashRing
unfolding keep_others
remove_node h node_id =
    if not (is_member h node_id)
    then h
    else let (ring, left) = keep_others node_id h.ring h.node_map in
      record h { nodes = Dict.delete node_id h.nodes; ring = ring; node_map = left }

-- `sort.Search(len(ring), func(i) ring[i] >= hash)`
unfoldable pub search : ℕ → List ℕ → ℕ
search hash [] = 0
search hash (x ∷ xs) = if leb hash x then 0 else suc (search hash xs)

-- The index where a walk clockwise begins.
unfoldable pub start_index : ℕ → List ℕ → ℕ
unfolding search
start_index hash ring = if leb (length ring) (search hash ring) then 0 else search hash ring

abbrev pub pos_or_zero : Option ℕ → ℕ
pos_or_zero none = 0
pos_or_zero (some pos) = pos

-- The walk of `GetNodes` over the positions: `seen` has the nodes of the result.
unfoldable pub walk : HashRing → ℕ → List ℕ → List String → List String
walk h n [] result = result
walk h n (pos ∷ rest) result =
    if leb n (length result)
    then result
    else walk h n rest
        (if has (owner_at h pos) result then result else result ++ owner_at h pos ∷ [])

module _ (sum32 : String → ℕ) where
  unfoldable pub get_node : HashRing → String → String
  unfolding start_index owner_at
  get_node h key =
      if length h.ring == 0
      then ""
      else owner_at h (pos_or_zero (get_elem? h.ring (start_index (sum32 key) h.ring)))

  -- `pos := (idx + i) % len(ring)` for i = 0, 1, ... runs through the ring from `idx` on.
  unfoldable pub get_nodes : HashRing → String → ℕ → List String
  unfolding start_index walk
  get_nodes h key n =
      if length h.ring == 0
      then []
      else if leb n 0
      then []
      else let idx = start_index (sum32 key) h.ring in
        walk h n (drop idx h.ring ++ take idx h.ring) []
