-- ===== src/Cache/Accounting.antt =====
-- The invariant of the segment cache: the recency list, the map and the byte count agree.
use magnitude.Common.{
  ℕ, ◌+◌, ◌≤◌, ◌≡◌, refl, Bool, true, false, String, Option, none, some, List, [], ◌∷◌, length,
  string_keyed, ◌==◌, if◌then◌else◌, arith, Option-cases, inl, inr,
}
use text.Mathlib.TextEquality.{eq_iff}
use magnitude.Common.Dict
use magnitude.Common.Dict.{Dict}
use magnitude.Common.Keys.{has, erase, IsOnce, has-erase, erase-IsOnce}
use magnitude.Cache.{Entry, SegmentCache, new, to_front, get, evict_key, unsee, update_entry}

-- The sizes of all entries together.
unfoldable pub total_size : Dict String Entry → ℕ
total_size [] = 0
total_size ((k, e) ∷ m) = e.size + total_size m

abbrev pub size_at : Option Entry → ℕ
size_at none = 0
size_at (some e) = e.size

pub total_size-insert :
    (key : String) (e : Entry) (m : Dict String Entry)
    → total_size (Dict.insert key e m) + size_at (Dict.lookup key m) ≡ total_size m + e.size
unfolding total_size Dict.insert Dict.lookup
total_size-insert key e [] = omega arith
total_size-insert key e ((k, f) ∷ m) = ground (arith, total_size-insert key e m)

pub size_at-le : (key : String) (m : Dict String Entry) → size_at (Dict.lookup key m) ≤ total_size m
unfolding total_size Dict.lookup
size_at-le key [] = omega arith
size_at-le key ((k, f) ∷ m) = ground (arith, size_at-le key m)

pub total_size-delete :
    (key : String) (m : Dict String Entry)
    → Dict.IsDistinct m
    → total_size (Dict.delete key m) + size_at (Dict.lookup key m) ≡ total_size m
unfolding total_size Dict.delete Dict.lookup
total_size-delete key [] d = omega arith
total_size-delete key ((k, f) ∷ m) d =
    ground (arith, eq_iff k key, total_size-delete key m d.1, Dict.delete_absent key m, d.0)

abbrev pub is_some {ℓ} : {A : Type ℓ} → Option A → Bool
is_some none = false
is_some (some a) = true

pub record IsValid (c : SegmentCache) : Type 0 where
  pub distinct : Dict.IsDistinct c.entries
  pub once : IsOnce c.lru
  pub linked : (key : String) → has key c.lru ≡ is_some (Dict.lookup key c.entries)
  pub bytes : c.current_bytes ≡ total_size c.entries
  pub seen_once : IsOnce c.seen_lru
  pub seen_linked : (key : String) → has key c.seen_lru ≡ is_some (Dict.lookup key c.seen_filter)

pub new-IsValid : (max_bytes : ℕ) → IsValid (new max_bytes)
unfolding new has Dict.lookup total_size
new-IsValid max_bytes = record {
  distinct = tt;
  once = tt;
  linked = λ key. refl;
  bytes = refl;
  seen_once = tt;
  seen_linked = λ key. refl;
}

module _ (c : SegmentCache) (v : IsValid c) (key : String) where
  pub to_front-IsOnce : IsOnce (to_front key c.lru)
  to_front-IsOnce = (
    ground (arith, eq_iff key key, has-erase key key c.lru v.once),
    erase-IsOnce key c.lru v.once,
  )

  pub get-IsValid : IsValid (get c key).0
  unfolding get has
  get-IsValid = elim (Option-cases (Dict.lookup key c.entries)) [
    | inl miss ↦ rw (miss, get) v
    | inr (e, hit) ↦
        rw (hit, get)
          (record {
            distinct = v.distinct;
            once = to_front-IsOnce;
            linked = λ j.
                ground
                  (arith, eq_iff key j, v.linked j, v.linked key, has-erase key j c.lru v.once);
            bytes = v.bytes;
            seen_once = v.seen_once;
            seen_linked = v.seen_linked;
          })
  ]

  pub evict_key-IsValid : IsValid (evict_key c key)
  unfolding evict_key
  evict_key-IsValid = elim (Option-cases (Dict.lookup key c.entries)) [
    | inl absent ↦
        rw (absent, evict_key)
          (record {
            distinct = v.distinct;
            once = erase-IsOnce key c.lru v.once;
            linked = λ j.
                ground
                  (arith, eq_iff key j, v.linked j, v.linked key, has-erase key j c.lru v.once);
            bytes = v.bytes;
            seen_once = v.seen_once;
            seen_linked = v.seen_linked;
          })
    | inr (e, found) ↦
        rw (found, evict_key)
          (record {
            distinct = Dict.delete-IsDistinct key c.entries v.distinct;
            once = erase-IsOnce key c.lru v.once;
            linked = λ j. ground (
              arith,
              eq_iff key j,
              v.linked j,
              has-erase key j c.lru v.once,
              Dict.lookup-delete key j c.entries,
            );
            bytes = ground (arith, v.bytes, total_size-delete key c.entries v.distinct);
            seen_once = v.seen_once;
            seen_linked = v.seen_linked;
          })
  ]

  pub unsee-IsValid : IsValid (unsee c key)
  unfolding unsee
  unsee-IsValid = elim (Option-cases (Dict.lookup key c.seen_filter)) [
    | inl absent ↦ rw (absent, unsee) v
    | inr (k, found) ↦
        rw (found, unsee)
          (record {
            distinct = v.distinct;
            once = v.once;
            linked = v.linked;
            bytes = v.bytes;
            seen_once = erase-IsOnce key c.seen_lru v.seen_once;
            seen_linked = λ j. ground (
              arith,
              eq_iff key j,
              v.seen_linked j,
              has-erase key j c.seen_lru v.seen_once,
              Dict.lookup-delete key j c.seen_filter,
            );
          })
  ]

  pub unsee-lookup :
      (j : String)
      → Dict.lookup j (unsee c key).seen_filter
        ≡ (if key == j then none else Dict.lookup j c.seen_filter)
  unfolding unsee
  unsee-lookup j = ground (arith, eq_iff key j, Dict.lookup-delete key j c.seen_filter)

  pub unsee-same :
      ((unsee c key).entries ≡ c.entries)
      × ((unsee c key).lru ≡ c.lru)
      × ((unsee c key).max_bytes ≡ c.max_bytes)
      × ((unsee c key).current_bytes ≡ c.current_bytes)
  unfolding unsee
  unsee-same = ground arith

  pub forget_key-IsValid :
      (k : String)
      → IsValid
          (record c { seen_filter = Dict.delete k c.seen_filter; seen_lru = erase k c.seen_lru })
  forget_key-IsValid k = record {
    distinct = v.distinct;
    once = v.once;
    linked = v.linked;
    bytes = v.bytes;
    seen_once = erase-IsOnce k c.seen_lru v.seen_once;
    seen_linked = λ j. ground (
      arith,
      eq_iff k j,
      v.seen_linked j,
      has-erase k j c.seen_lru v.seen_once,
      Dict.lookup-delete k j c.seen_filter,
    );
  }

  pub update_entry-IsValid :
      (e : Entry) (value : List ℕ)
      → Dict.lookup key c.entries ≡ some e
      → IsValid (update_entry c key e value)
  unfolding update_entry has
  update_entry-IsValid e value found = record {
    distinct =
        Dict.insert-IsDistinct key (record { value = value; size = length value }) c.entries
          v.distinct;
    once = to_front-IsOnce;
    linked = λ j. ground (
      arith,
      eq_iff key j,
      v.linked j,
      v.linked key,
      has-erase key j c.lru v.once,
      Dict.lookup-insert key j (record { value = value; size = length value }) c.entries,
    );
    bytes = ground (
      arith,
      v.bytes,
      size_at-le key c.entries,
      total_size-insert key (record { value = value; size = length value }) c.entries,
    );
    seen_once = v.seen_once;
    seen_linked = v.seen_linked;
  }
