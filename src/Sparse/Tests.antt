-- ===== src/Sparse/Tests.antt =====
-- A small index over natural numbers in place of floats, with texts of one or two words.
use magnitude.Common.{
  ℕ, ◌+◌, ◌-◌, ◌*◌, ◌≤◌, ◌≡◌, refl, false, not, ◌&&◌, String, List, [], ◌∷◌, length, ltb, ◌==◌,
  nat_keyed, string_keyed, if◌then◌else◌, arith,
}
use magnitude.Common.Dict
use magnitude.Common.Dict.{Dict}
use magnitude.Common.Keys.{has}
use magnitude.Sparse.{
  Floats, InvertedIndex, list_of, keep_terms, tokenize, count_terms, term_id, new_index, add_terms,
  add_document, remove_document,
}
use magnitude.Sparse.Valid.{occurrences, IsValid}
use magnitude.Sparse.Documents.{
  Alike, add_document-IsValid, remove_document-IsValid, remove_document-add_document,
}
use magnitude.Sparse.Search.{has_result, search, matches, search_exact}

abbrev floats : Floats ℕ
floats = record {
  of_nat = λ n. n;
  half = 0;
  plus = λ a b. a + b;
  minus = λ a b. a - b;
  times = λ a b. a * b;
  over = λ a b. a;
  log = λ a. a;
  narrow = λ a. a;
  plus_narrow = λ a b. a + b;
  above = λ a b. ltb b a;
}

abbrev words : String → List String
words text = if text == "the red fox" then "the" ∷ "red" ∷ "fox" ∷ [] else text ∷ []

abbrev size : String → ℕ
size word = 3

abbrev empty : InvertedIndex ℕ
empty = new_index floats 1 0

empty-IsValid : IsValid empty
unfolding new_index occurrences Dict.lookup
empty-IsValid = record {
  counted = λ t. refl;
  once = λ t d. omega arith;
  known = λ t d h. refl;
  totals = refl;
  terms_distinct = tt;
  docs_distinct = tt;
}

abbrev one : InvertedIndex ℕ
one = add_document floats words size empty 7 "the red fox"

add_document-IsValid_example : IsValid one
unfolding new_index Dict.lookup
add_document-IsValid_example =
    add_document-IsValid floats words size empty 7 "the red fox" empty-IsValid refl

one-IsValid : IsValid one
unfolding new_index Dict.lookup
one-IsValid = add_document-IsValid floats words size empty 7 "the red fox" empty-IsValid refl

remove_document-IsValid_example :
    IsValid (remove_document floats one 7)
    × ((t : ℕ)
        → occurrences 7 (list_of (Dict.lookup t (remove_document floats one 7).postings)) ≡ 0)
remove_document-IsValid_example = remove_document-IsValid floats one 7 one-IsValid

remove_document-add_document_example :
    Alike one (remove_document floats (add_document floats words size one 8 "fox") 8)
unfolding add_document add_terms count_terms term_id tokenize keep_terms new_index Dict.lookup
    Dict.insert has
remove_document-add_document_example =
    remove_document-add_document floats words size one 8 "fox" one-IsValid refl

search_exact_example :
    (length (search floats words size one "fox" 5) ≤ 5)
    × (((has_result 7 (search floats words size one "fox" 5)
            && not (matches floats one (tokenize words size "fox") 7))
          ≡ false)
        × ((ltb 0 one.total_docs
              && (ltb (length (search floats words size one "fox" 5)) 5
                  && (matches floats one (tokenize words size "fox") 7
                      && not (has_result 7 (search floats words size one "fox" 5)))))
            ≡ false))
search_exact_example = search_exact floats words size one "fox" 5 7
