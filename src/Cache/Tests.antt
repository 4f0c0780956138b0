-- ===== src/Cache/Tests.antt =====
-- A segment cache of four bytes.
use magnitude.Common.{
  ℕ, ◌<◌, ◌≡◌, refl, true, false, String, some, List, [], ◌∷◌, length, ◌==◌, if◌then◌else◌, arith,
  string_keyed,
}
use magnitude.Common.Dict
use magnitude.Common.Keys.{has, erase, back}
use magnitude.Cache.{
  SegmentCache, new, put, remember, unsee, admit, make_room, evict_lru, evict_key, forget_oldest,
}
use magnitude.Cache.Accounting.{IsValid, new-IsValid, total_size, is_some}
use magnitude.Common.Keys.{IsOnce}
use magnitude.Cache.Limits.{
  Call, put_call, run, call, run-IsValid, accounting_exact, update_exceeds_limit, oversized_flush,
}

abbrev bytes : List ℕ
bytes = 1 ∷ 2 ∷ 3 ∷ []

abbrev long : List ℕ
long = 1 ∷ 2 ∷ 3 ∷ 4 ∷ 5 ∷ []

abbrev calls : List Call
calls = put_call "a" bytes ∷ put_call "a" bytes ∷ put_call "b" bytes ∷ []

abbrev warm : SegmentCache
warm = run (new 4) calls

warm-IsValid : IsValid warm
warm-IsValid = run-IsValid (new 4) calls (new-IsValid 4)

accounting_exact_example :
    (warm.current_bytes ≡ total_size warm.entries)
    × IsOnce warm.lru
    × ((key : String) → has key warm.lru ≡ is_some (Dict.lookup key warm.entries))
accounting_exact_example = accounting_exact 4 calls

update_exceeds_limit_example :
    ((put warm "a" long).1 ≡ true)
    × ((put warm "a" long).0.max_bytes < (put warm "a" long).0.current_bytes)
    × ((other : String)
        → Dict.lookup other (put warm "a" long).0.entries ≡ (
            if "a" == other
            then some (record { value = long; size = length long })
            else Dict.lookup other warm.entries))
unfolding run call put remember admit make_room evict_lru evict_key new unsee forget_oldest
    Dict.lookup Dict.insert Dict.delete erase back
update_exceeds_limit_example =
    update_exceeds_limit warm "a" long {e = record { value = bytes; size = 3 }} refl (omega arith)

oversized_flush_example : ((put warm "b" long).1 ≡ false) × ((put warm "b" long).0.entries ≡ [])
unfolding run call put remember admit make_room evict_lru evict_key new unsee forget_oldest
    Dict.lookup Dict.insert Dict.delete erase back
oversized_flush_example =
    oversized_flush warm "b" long {k = "b"} warm-IsValid refl refl (omega arith)
