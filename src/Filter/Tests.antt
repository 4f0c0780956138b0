-- ===== src/Filter/Tests.antt =====
-- Filters over natural numbers in place of float64.
use magnitude.Common.{
  ℕ, ◌≡◌, refl, Bool, true, false, ◌||◌, String, some, [], ◌∷◌, ◌==◌, nat_keyed, string_keyed, ltb,
  arith,
}
use magnitude.Common.Dict.{Dict}
use magnitude.Filter.{
  Value, null, num, str, boolean, arr, obj, nil, cons, Fields, end, field, Filter, filter,
  no_filters, match,
}
use magnitude.Filter.Parse.{
  done, panicked, parse_filter, parse_filter_depth, parse_entries, parse_entry, parse_condition,
}
use magnitude.Filter.Meaning.{holds, fits, is_plain, ors}
use magnitude.Filter.Sound.{parse_filter-match}
use magnitude.Filter.Faults.{empty_object_panics, either, both, alternatives_merged}

abbrev feq : ℕ → ℕ → Bool
feq a b = a == b

abbrev sprint : Value ℕ → String
sprint (str s) = s
sprint (boolean true) = "true"
sprint (boolean false) = "false"
sprint null = "<nil>"
sprint (num n) = "1"
sprint (arr vs) = "[]"
sprint (obj fs) = "map[]"

abbrev book : Dict String (Value ℕ)
book = ("category", str "science") ∷ ("year", num 2021) ∷ []

-- `{"year": {"$gte": 2020}, "$and": [{"$or": [{"category": "art"}, {"category": "science"}]}]}`
abbrev recent : Fields ℕ
recent = field "year" (obj (field "$gte" (num 2020) end)) (
    field "$and"
      (arr (
        cons
          (obj (
            field "$or"
              (arr (
                cons (obj (field "category" (str "art") end))
                  (cons (obj (field "category" (str "science") end)) nil)))
              end))
          nil))
      end)

parse_filter-match_example :
    (f : Filter ℕ) × (parse_filter recent ≡ done (some f))
    × (match feq ltb sprint f book ≡ holds feq ltb sprint book recent)
unfolding fits is_plain ors
parse_filter-match_example = parse_filter-match feq ltb sprint recent book refl refl (omega arith)

empty_object_panics_example :
    (parse_filter (field "$and" (arr (cons (obj end) nil)) recent) ≡ panicked)
    × (parse_filter (field "$or" (arr (cons (obj end) nil)) recent) ≡ panicked)
empty_object_panics_example = empty_object_panics nil recent

abbrev is : String → Value ℕ → Fields ℕ
is key v = field key v end

abbrev equals : String → Value ℕ → Filter ℕ
equals key v =
    filter (record { name = key; operator = "$eq"; value = v; values = nil } ∷ []) no_filters

parsed :
    (key : String) (v : String)
    → (key == "$and") ≡ false
    → (key == "$or") ≡ false
    → parse_filter_depth 8 (is key (str v)) ≡ done (some (equals key (str v)))
unfolding parse_filter_depth parse_entries parse_entry parse_condition
parsed key v p q = rw (p, q) refl

-- Art or science, and here or there: the book matches, though it has no place.
alternatives_merged_example :
    (f : Filter ℕ) × (parse_filter (
        both
          (either (is "category" (str "art")) (is "category" (str "science")))
          (either (is "place" (str "here")) (is "place" (str "there"))))
      ≡ done (some f))
    × (match feq ltb sprint f book ≡ (
        match feq ltb sprint (equals "category" (str "art")) book
        || match feq ltb sprint (equals "category" (str "science")) book
        || match feq ltb sprint (equals "place" (str "here")) book
        || match feq ltb sprint (equals "place" (str "there")) book))
alternatives_merged_example =
    alternatives_merged feq ltb sprint (is "category" (str "art")) (is "category" (str "science"))
      (is "place" (str "here")) (is "place" (str "there")) (equals "category" (str "art"))
      (equals "category" (str "science")) (equals "place" (str "here"))
      (equals "place" (str "there")) book (parsed "category" "art" refl refl)
      (parsed "category" "science" refl refl) (parsed "place" "here" refl refl)
      (parsed "place" "there" refl refl)
