-- ===== src/Cache/Admit.antt =====
-- `Put` of the segment cache: admission on the second access, eviction, and the byte limit.
use magnitude.Common.{
  ℕ, zero, suc, ◌+◌, ◌<◌, ◌≤◌, ◌≡◌, ◌⊎◌, refl, false, String, none, some, List, [], ◌∷◌, length,
  ltb, string_keyed, arith, Bool-cases, Option-cases, inl, inr, ◌∙◌, ap,
}
use text.Mathlib.TextEquality.{eq_iff}
use magnitude.Common.Dict
use magnitude.Common.Dict.{Dict}
use magnitude.Common.Keys.{has, back, length-erase, has-back, back_total}
use magnitude.Cache.{Entry, SegmentCache, evict_key, evict_lru, make_room, unsee, admit, put}
use magnitude.Cache.Accounting.{
  IsValid, total_size-insert, is_some, unsee-IsValid, unsee-same, update_entry-IsValid,
}
use magnitude.Cache.Steps.{make_room-IsValid, remember-IsValid}

-- An eviction keeps the limit, and brings no key in.
evict_lru-max : (c : SegmentCache) → (evict_lru c).max_bytes ≡ c.max_bytes
unfolding evict_lru
evict_lru-max c = ground arith

evict_lru-lookup :
    (c : SegmentCache) (key : String)
    → Dict.lookup key c.entries ≡ none
    → Dict.lookup key (evict_lru c).entries ≡ none
unfolding evict_lru evict_key
evict_lru-lookup c key h = elim (Option-cases (back c.lru)) [
  | inl empty ↦ ground arith
  | inr (k, last) ↦ ground (arith, eq_iff k key, Dict.lookup-delete k key c.entries)
]

back-some : (l : List String) → 0 < length l → (key : String) × (back l ≡ some key)
back-some [] h = elim h [ ]
back-some (k ∷ ks) h = back_total k ks

length-evict_lru :
    (c : SegmentCache) → 0 < length c.lru → length (evict_lru c).lru + 1 ≡ length c.lru
unfolding evict_lru evict_key
length-evict_lru c h =
    let (k, last) = back-some c.lru h in ground (arith, length-erase k c.lru (has-back c.lru last))

make_room-max : (fuel size : ℕ) (c : SegmentCache) → (make_room fuel size c).max_bytes ≡ c.max_bytes
unfolding make_room
make_room-max zero size c = refl
make_room-max (suc fuel) size c =
    ground (arith, make_room-max fuel size (evict_lru c), evict_lru-max c)

make_room-lookup :
    (fuel size : ℕ) (c : SegmentCache) (key : String)
    → Dict.lookup key c.entries ≡ none
    → Dict.lookup key (make_room fuel size c).entries ≡ none
unfolding make_room
make_room-lookup zero size c key h = h
make_room-lookup (suc fuel) size c key h =
    ground (arith, make_room-lookup fuel size (evict_lru c) key, evict_lru-lookup c key h)

-- With fuel for every entry the loop ends by its test.
make_room_ends :
    (fuel size : ℕ) (c : SegmentCache)
    → length c.lru ≤ fuel
    → let d = make_room fuel size c in (d.current_bytes + size ≤ d.max_bytes) ⊎ (length d.lru ≡ 0)
unfolding make_room
make_room_ends zero size c h = inr (omega arith)
make_room_ends (suc fuel) size c h =
    ground (arith, make_room_ends fuel size (evict_lru c), length-evict_lru c)

lookup_head : (k : String) (e : Entry) (m : Dict String Entry) → Dict.lookup k ((k, e) ∷ m) ≡ some e
unfolding Dict.lookup
lookup_head k e m = ground (arith, eq_iff k k)

-- With no key on the list nothing is cached.
nothing_cached : (c : SegmentCache) → IsValid c → length c.lru ≡ 0 → c.entries ≡ []
unfolding has
nothing_cached c v h = no_entry c.entries (λ key. ground (arith, v.linked key, no_key c.lru h key))
  where
    no_key : (l : List String) → length l ≡ 0 → (key : String) → has key l ≡ false
    no_key [] e key = refl
    no_key (k ∷ ks) e key = absurd (omega arith)

    no_entry :
        (m : Dict String Entry) → ((key : String) → is_some (Dict.lookup key m) ≡ false) → m ≡ []
    no_entry [] e = refl
    no_entry ((k, f) ∷ m) e = absurd (ground (arith, e k, lookup_head k f m))

-- The cache after the eviction of `admit`.
abbrev pub trimmed : SegmentCache → String → List ℕ → SegmentCache
trimmed c key value = make_room (length c.lru) (length value) (unsee c key)

module _ (c : SegmentCache) (key : String) (value : List ℕ) (v : IsValid c) where
  pub trimmed-IsValid : IsValid (trimmed c key value)
  trimmed-IsValid =
      make_room-IsValid (length c.lru) (length value) (unsee c key) (unsee-IsValid c v key)

  pub trimmed-max : (trimmed c key value).max_bytes ≡ c.max_bytes
  trimmed-max = make_room-max (length c.lru) (length value) (unsee c key) ∙ (unsee-same c v key).2

  pub trimmed-lookup :
      Dict.lookup key c.entries ≡ none → Dict.lookup key (trimmed c key value).entries ≡ none
  trimmed-lookup h =
      make_room-lookup (length c.lru) (length value) (unsee c key) key
        (ap (Dict.lookup key) (unsee-same c v key).0 ∙ h)

  pub trimmed_ends :
      ((trimmed c key value).current_bytes + length value ≤ c.max_bytes)
      ⊎ ((trimmed c key value).entries ≡ [])
  trimmed_ends = ground (
    arith,
    trimmed-max,
    unsee-same c v key,
    make_room_ends (length c.lru) (length value) (unsee c key),
    nothing_cached (trimmed c key value) trimmed-IsValid,
  )

  admit-IsValid : Dict.lookup key c.entries ≡ none → IsValid (admit c key value).0
  unfolding admit has
  admit-IsValid h =
      let d = trimmed c key value in
      let w = trimmed-IsValid in
      let entry : Entry = record { value = value; size = length value } in
      elim (Bool-cases (ltb d.max_bytes (length value))) [
        | inl large ↦ rw large w
        | inr small ↦ rw small (record {
          distinct = Dict.insert-IsDistinct key entry d.entries w.distinct;
          once = (ground (arith, w.linked key, trimmed-lookup h), w.once);
          linked = λ j.
              ground (arith, eq_iff key j, w.linked j, Dict.lookup-insert key j entry d.entries);
          bytes = ground (arith, w.bytes, total_size-insert key entry d.entries, trimmed-lookup h);
          seen_once = w.seen_once;
          seen_linked = w.seen_linked;
        })
      ]

  pub put-IsValid : IsValid (put c key value).0
  unfolding put
  put-IsValid = elim (Option-cases (Dict.lookup key c.entries)) [
    | inr (e, cached) ↦ rw (cached, put) (update_entry-IsValid c v key e value cached)
    | inl absent ↦ elim (Option-cases (Dict.lookup key c.seen_filter)) [
      | inl first ↦ rw (absent, put, first) (remember-IsValid c key v first)
      | inr (k, seen) ↦ rw (absent, put, seen) (admit-IsValid absent)
    ]
  ]
