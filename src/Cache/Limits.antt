-- ===== src/Cache/Limits.antt =====
-- Sequences of calls of the segment cache, and its byte limit.
use magnitude.Common.{
  ℕ, ◌<◌, ◌≤◌, ◌≡◌, refl, true, false, String, none, some, List, [], ◌∷◌, length, string_keyed,
  ◌==◌, if◌then◌else◌, arith, Option-cases, inl, inr, ◌∙◌, ap,
}
use text.Mathlib.TextEquality.{eq_iff}
use magnitude.Common.Dict
use magnitude.Common.Dict.{Dict}
use magnitude.Common.Keys.{has, IsOnce}
use magnitude.Cache.{
  Entry, SegmentCache, new, get, evict_key, forget_oldest, remember, admit, put, remove, clear,
}
use magnitude.Cache.Accounting.{
  IsValid, total_size, is_some, unsee-IsValid, get-IsValid, new-IsValid, evict_key-IsValid,
}
use magnitude.Cache.Steps.{remember-IsValid}
use magnitude.Cache.Admit.{trimmed, trimmed-IsValid, trimmed-max, trimmed_ends, put-IsValid}

pub data Call : Type 0 where
  get_call : String → Call
  put_call : String → List ℕ → Call
  remove_call : String → Call
  clear_call : Call

unfoldable pub call : SegmentCache → Call → SegmentCache
call c (get_call key) = (get c key).0
call c (put_call key value) = (put c key value).0
call c (remove_call key) = remove c key
call c clear_call = clear c

unfoldable pub run : SegmentCache → List Call → SegmentCache
run c [] = c
run c (x ∷ xs) = run (call c x) xs

remove-IsValid : (c : SegmentCache) (key : String) → IsValid c → IsValid (remove c key)
unfolding remove
remove-IsValid c key v = elim (Option-cases (Dict.lookup key c.entries)) [
  | inl absent ↦ rw (absent, remove) (unsee-IsValid c v key)
  | inr (e, cached) ↦
      rw (cached, remove) (unsee-IsValid (evict_key c key) (evict_key-IsValid c v key) key)
]

clear-IsValid : (c : SegmentCache) → IsValid (clear c)
unfolding clear has Dict.lookup total_size
clear-IsValid c = record {
  distinct = tt;
  once = tt;
  linked = λ key. refl;
  bytes = refl;
  seen_once = tt;
  seen_linked = λ key. refl;
}

call-IsValid : (c : SegmentCache) (x : Call) → IsValid c → IsValid (call c x)
unfolding call
call-IsValid c (get_call key) v = get-IsValid c v key
call-IsValid c (put_call key value) v = put-IsValid c key value v
call-IsValid c (remove_call key) v = remove-IsValid c key v
call-IsValid c clear_call v = clear-IsValid c

pub run-IsValid : (c : SegmentCache) (xs : List Call) → IsValid c → IsValid (run c xs)
unfolding run
run-IsValid c [] v = v
run-IsValid c (x ∷ xs) v = run-IsValid (call c x) xs (call-IsValid c x v)

-- After any calls on a new cache, its byte count is the sum of the sizes of its entries, and a key
-- is on the recency list, once, exactly when it is in the map.
pub accounting_exact :
    (max_bytes : ℕ) (xs : List Call)
    → let c = run (new max_bytes) xs in
      (c.current_bytes ≡ total_size c.entries)
      × IsOnce c.lru
      × ((key : String) → has key c.lru ≡ is_some (Dict.lookup key c.entries))
accounting_exact max_bytes xs =
    let v = run-IsValid (new max_bytes) xs (new-IsValid max_bytes) in (v.bytes, v.once, v.linked)

-- A `Put` of a key that is not cached keeps the cache within its limit.
pub put_within_limit :
    (c : SegmentCache) (key : String) (value : List ℕ)
    → IsValid c
    → Dict.lookup key c.entries ≡ none
    → c.current_bytes ≤ c.max_bytes
    → (put c key value).0.current_bytes ≤ (put c key value).0.max_bytes
unfolding put admit remember forget_oldest total_size
put_within_limit c key value v absent within = ground (
  arith,
  trimmed_ends c key value v,
  trimmed-max c key value v,
  (trimmed-IsValid c key value v).bytes,
)

-- A `Put` of a key that is cached, with a value longer than the limit, reports success and leaves the
-- cache above its limit. It evicts nothing: the key has the new value with its length as the size, and
-- every other key has the entry that it had.
pub update_exceeds_limit :
    (c : SegmentCache) (key : String) (value : List ℕ) {e : Entry}
    → Dict.lookup key c.entries ≡ some e
    → c.max_bytes < length value
    → ((put c key value).1 ≡ true)
      × ((put c key value).0.max_bytes < (put c key value).0.current_bytes)
      × ((other : String)
          → Dict.lookup other (put c key value).0.entries ≡ (
              if key == other
              then some (record { value = value; size = length value })
              else Dict.lookup other c.entries))
unfolding put
update_exceeds_limit c key value cached long = (
  ground arith,
  ground arith,
  λ other.
      rw (put, cached)
        (Dict.lookup-insert key other (record { value = value; size = length value }) c.entries),
)

remember-same :
    (c : SegmentCache) (key : String)
    → ((remember c key).entries ≡ c.entries)
      × ((remember c key).max_bytes ≡ c.max_bytes)
      × (Dict.lookup key (remember c key).seen_filter ≡ some key)
unfolding remember forget_oldest
remember-same c key = ground (
  arith,
  eq_iff key key,
  Dict.lookup-insert key key key c.seen_filter,
  Dict.lookup-insert key key key (forget_oldest c).seen_filter,
)

-- `Put` of a remembered key whose value fits.
put_seen :
    (c : SegmentCache) (key : String) (value : List ℕ) {k : String}
    → IsValid c
    → Dict.lookup key c.entries ≡ none
    → Dict.lookup key c.seen_filter ≡ some k
    → length value ≤ c.max_bytes
    → ((put c key value).1 ≡ true) × ((get (put c key value).0 key).1 ≡ some value)
unfolding put admit get
put_seen c key value v absent seen fits = ground (
  arith,
  trimmed-max c key value v,
  eq_iff key key,
  Dict.lookup-insert key key (record { value = value; size = length value })
      (trimmed c key value).entries,
)

put_first :
    (c : SegmentCache) (key : String) (value : List ℕ)
    → Dict.lookup key c.entries ≡ none
    → Dict.lookup key c.seen_filter ≡ none
    → put c key value ≡ (remember c key, false)
unfolding put
put_first c key value absent first = ground arith

-- A key that is neither cached nor remembered is not admitted by its first `Put`, which leaves the
-- entries as they were, and is admitted by a second one if the value fits.
pub second_access :
    (c : SegmentCache) (key : String) (value value' : List ℕ)
    → IsValid c
    → Dict.lookup key c.entries ≡ none
    → Dict.lookup key c.seen_filter ≡ none
    → length value' ≤ c.max_bytes
    → let (c', admitted) = put c key value in
      (admitted ≡ false)
      × (c'.entries ≡ c.entries)
      × ((put c' key value').1 ≡ true)
      × ((get (put c' key value').0 key).1 ≡ some value')
second_access c key value value' v absent first fits =
    let (entries, limit, seen) = remember-same c key in
    rw (put_first c key value absent first) (
      let (admitted, stored) =
        put_seen (remember c key) key value' (remember-IsValid c key v first)
          (ap (Dict.lookup key) entries ∙ absent) seen (omega arith) in
      (refl, entries, admitted, stored))

-- A remembered key whose value is longer than the limit is not admitted, but its `Put` evicts every entry.
pub oversized_flush :
    (c : SegmentCache) (key : String) (value : List ℕ) {k : String}
    → IsValid c
    → Dict.lookup key c.entries ≡ none
    → Dict.lookup key c.seen_filter ≡ some k
    → c.max_bytes < length value
    → ((put c key value).1 ≡ false) × ((put c key value).0.entries ≡ [])
unfolding put admit
oversized_flush c key value v absent seen long =
    ground (arith, trimmed_ends c key value v, trimmed-max c key value v)
