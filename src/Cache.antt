-- ===== src/Cache.antt =====
-- internal/cache/segment_cache.go: an LRU cache that admits a key on its second access. The list
-- nodes and the map share `*entry`: here `lru` lists the keys, front first, and `entries` holds what
-- they point to. A value is its bytes. Byte counts are numbers, since the sizes in one process stay
-- far below 2 ^ 63; `-` is exact wherever it is used on a valid cache.
pub mod Accounting
pub mod Steps
pub mod Admit
pub mod Limits
mod Tests
use magnitude.Common.{
  ℕ, zero, suc, ◌+◌, ◌-◌, Bool, true, false, ◌&&◌, String, Option, none, some, List, [], ◌∷◌,
  length, ltb, leb, string_keyed, if◌then◌else◌,
}
use magnitude.Common.Dict
use magnitude.Common.Dict.{Dict}
use magnitude.Common.Keys.{has, erase, back}

pub record Entry : Type 0 where
  pub value : List ℕ
  pub size : ℕ

pub record SegmentCache : Type 0 where
  pub entries : Dict String Entry
  pub lru : List String
  pub max_bytes : ℕ
  pub current_bytes : ℕ
  pub seen_filter : Dict String String
  pub seen_lru : List String
  pub max_seen_keys : ℕ

unfoldable pub new : ℕ → SegmentCache
new max_bytes = record {
  entries = [];
  lru = [];
  max_bytes = max_bytes;
  current_bytes = 0;
  seen_filter = [];
  seen_lru = [];
  max_seen_keys = 100000;
}

-- `MoveToFront`
abbrev pub to_front : String → List String → List String
to_front key l = key ∷ erase key l

unfoldable pub get : SegmentCache → String → SegmentCache × Option (List ℕ)
get c key = elim (Dict.lookup key c.entries) [
  | none ↦ (c, none)
  | some e ↦ (record c { lru = to_front key c.lru }, some e.value)
]

-- `evictLRU` once the back of the list is known; the entry is there on a valid cache.
unfoldable pub evict_key : SegmentCache → String → SegmentCache
evict_key c key = elim (Dict.lookup key c.entries) [
  | none ↦ record c { lru = erase key c.lru }
  | some e ↦ record c {
    lru = erase key c.lru;
    current_bytes = c.current_bytes - e.size;
    entries = Dict.delete key c.entries;
  }
]

unfoldable pub evict_lru : SegmentCache → SegmentCache
unfolding evict_key
evict_lru c = elim (back c.lru) [ none ↦ c | some key ↦ evict_key c key ]

-- `for c.currentBytes+size > c.maxBytes && c.lru.Len() > 0`, with fuel.
unfoldable pub make_room : ℕ → ℕ → SegmentCache → SegmentCache
make_room zero size c = c
make_room (suc fuel) size c =
    let rest = make_room fuel size (evict_lru c) in
    if ltb c.max_bytes (c.current_bytes + size) && ltb 0 (length c.lru) then rest else c

-- The first access: remember the key, and forget the oldest one when the filter is full.
unfoldable pub forget_oldest : SegmentCache → SegmentCache
forget_oldest c = elim (back c.seen_lru) [
  | none ↦ c
  | some key ↦ record c {
    seen_filter = Dict.delete key c.seen_filter;
    seen_lru = erase key c.seen_lru;
  }
]

unfoldable pub remember : SegmentCache → String → SegmentCache
unfolding forget_oldest
remember c key =
    let d = if leb c.max_seen_keys (length c.seen_lru) then forget_oldest c else c in
    record d { seen_filter = Dict.insert key key d.seen_filter; seen_lru = key ∷ d.seen_lru }

unfoldable pub unsee : SegmentCache → String → SegmentCache
unsee c key = elim (Dict.lookup key c.seen_filter) [
  | none ↦ c
  | some _ ↦ record c {
    seen_lru = erase key c.seen_lru;
    seen_filter = Dict.delete key c.seen_filter;
  }
]

-- A cached key: the entry is changed in place.
unfoldable pub update_entry : SegmentCache → String → Entry → List ℕ → SegmentCache
update_entry c key e value = record c {
  entries = Dict.insert key (record { value = value; size = length value }) c.entries;
  current_bytes = c.current_bytes - e.size + length value;
  lru = to_front key c.lru;
}

-- The end of `Put`, for a key that was seen before.
unfoldable pub admit : SegmentCache → String → List ℕ → SegmentCache × Bool
unfolding unsee
admit c key value =
    let d = make_room (length c.lru) (length value) (unsee c key) in
    if ltb d.max_bytes (length value) then (d, false) else (
      record d {
        lru = key ∷ d.lru;
        entries = Dict.insert key (record { value = value; size = length value }) d.entries;
        current_bytes = d.current_bytes + length value;
      },
      true,
    )

unfoldable pub put : SegmentCache → String → List ℕ → SegmentCache × Bool
unfolding update_entry
put c key value = elim (Dict.lookup key c.entries) [
  | some e ↦ (update_entry c key e value, true)
  | none ↦ elim (Dict.lookup key c.seen_filter) [
    | none ↦ (remember c key, false)
    | some _ ↦ admit c key value
  ]
]

unfoldable pub remove : SegmentCache → String → SegmentCache
unfolding unsee evict_key
remove c key = elim (Dict.lookup key c.entries) [
  | none ↦ unsee c key
  | some e ↦ unsee (evict_key c key) key
]

-- `Clear`
unfoldable pub clear : SegmentCache → SegmentCache
clear c = record c { entries = []; lru = []; current_bytes = 0; seen_filter = []; seen_lru = [] }
