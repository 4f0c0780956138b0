-- ===== src/Cache/Steps.antt =====
-- The accounting under evictions and first accesses.
use magnitude.Common.{
  ℕ, zero, suc, ◌+◌, ◌≡◌, ◌&&◌, String, none, ◌∷◌, length, ltb, leb, string_keyed, arith,
  Bool-cases, Option-cases, inl, inr,
}
use text.Mathlib.TextEquality.{eq_iff}
use magnitude.Common.Dict
use magnitude.Common.Dict.{Dict}
use magnitude.Common.Keys.{has, back}
use magnitude.Cache.{SegmentCache, evict_lru, make_room, forget_oldest, remember}
use magnitude.Cache.Accounting.{IsValid, evict_key-IsValid, forget_key-IsValid}

forget_oldest-IsValid : (c : SegmentCache) → IsValid c → IsValid (forget_oldest c)
unfolding forget_oldest
forget_oldest-IsValid c v = elim (Option-cases (back c.seen_lru)) [
  | inl empty ↦ rw (empty, forget_oldest) v
  | inr (k, last) ↦ rw (last, forget_oldest) (forget_key-IsValid c v k k)
]

pub evict_lru-IsValid : (c : SegmentCache) → IsValid c → IsValid (evict_lru c)
unfolding evict_lru
evict_lru-IsValid c v = elim (Option-cases (back c.lru)) [
  | inl empty ↦ rw (empty, evict_lru) v
  | inr (k, last) ↦ rw (last, evict_lru) (evict_key-IsValid c v k)
]

pub make_room-IsValid :
    (fuel size : ℕ) (c : SegmentCache) → IsValid c → IsValid (make_room fuel size c)
unfolding make_room
make_room-IsValid zero size c v = v
make_room-IsValid (suc fuel) size c v =
    elim (Bool-cases (ltb c.max_bytes (c.current_bytes + size) && ltb 0 (length c.lru))) [
      | inl over ↦ rw over (make_room-IsValid fuel size (evict_lru c) (evict_lru-IsValid c v))
      | inr fits ↦ rw fits v
    ]

remember_new-IsValid :
    (c : SegmentCache) (key : String)
    → IsValid c
    → Dict.lookup key c.seen_filter ≡ none
    → IsValid
        (record c { seen_filter = Dict.insert key key c.seen_filter; seen_lru = key ∷ c.seen_lru })
unfolding has
remember_new-IsValid c key v new_key = record {
  distinct = v.distinct;
  once = v.once;
  linked = v.linked;
  bytes = v.bytes;
  seen_once = (ground (arith, v.seen_linked key), v.seen_once);
  seen_linked = λ j.
      ground (arith, eq_iff key j, v.seen_linked j, Dict.lookup-insert key j key c.seen_filter);
}

forget_oldest-lookup :
    (c : SegmentCache) (key : String)
    → Dict.lookup key c.seen_filter ≡ none
    → Dict.lookup key (forget_oldest c).seen_filter ≡ none
unfolding forget_oldest
forget_oldest-lookup c key h = elim (Option-cases (back c.seen_lru)) [
  | inl empty ↦ rw (empty, forget_oldest) h
  | inr (k, last) ↦
      rw (last, forget_oldest) (ground (arith, Dict.lookup-delete k key c.seen_filter))
]

pub remember-IsValid :
    (c : SegmentCache) (key : String)
    → IsValid c
    → Dict.lookup key c.seen_filter ≡ none
    → IsValid (remember c key)
unfolding remember
remember-IsValid c key v h = elim (Bool-cases (leb c.max_seen_keys (length c.seen_lru))) [
  | inl full ↦ rw full (
      remember_new-IsValid (forget_oldest c) key (forget_oldest-IsValid c v)
        (forget_oldest-lookup c key h))
  | inr more ↦ rw more (remember_new-IsValid c key v h)
]
