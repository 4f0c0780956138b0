-- ===== src/Sparse.antt =====
-- internal/index/sparse/inverted.go: the inverted index of terms with BM25 scores. Splitting a text
-- into words (strings and unicode) and the size of a word in bytes are parameters, and so is the
-- arithmetic of float64 and float32. A loop over a map runs through its entries.
mod Additions
mod Removals
pub mod Valid
pub mod Effects
pub mod Documents
pub mod Search
mod Tests
use magnitude.Common.{
  ℕ, ◌+◌, ◌-◌, ◌%◌, ◌^◌, Bool, true, false, ◌||◌, String, Option, none, some, List, [], ◌∷◌, ◌++◌,
  length, take, ltb, ◌==◌, nat_keyed, string_keyed, if◌then◌else◌,
}
use magnitude.Common.Dict
use magnitude.Common.Dict.{Dict}
use magnitude.Common.Keys.{has}

pub record Floats (F : Type 0) : Type 0 where
  pub of_nat : ℕ → F
  pub half : F
  pub plus : F → F → F
  pub minus : F → F → F
  pub times : F → F → F
  pub over : F → F → F
  pub log : F → F
  pub narrow : F → F
  pub plus_narrow : F → F → F
  pub above : F → F → Bool

pub record Posting : Type 0 where
  pub doc_id : ℕ
  pub raw_tf : ℕ

pub record SearchResult (F : Type 0) : Type 0 where
  pub doc_id : ℕ
  pub score : F

pub record InvertedIndex (F : Type 0) : Type 0 where
  pub postings : Dict ℕ (List Posting)
  pub doc_lengths : Dict ℕ ℕ
  pub term_df : Dict ℕ ℕ
  pub total_docs : ℕ
  pub avg_doc_len : F
  pub vocab : Dict String ℕ
  pub next_term_id : ℕ
  pub k1 : F
  pub b : F

abbrev stop_words : List String
stop_words =
    "the" ∷ "is" ∷ "at" ∷ "which" ∷ "on" ∷ "a" ∷ "an" ∷ "and" ∷ "or" ∷ "but" ∷ "in" ∷ "with" ∷ "to"
    ∷ "for" ∷ "of" ∷ "it" ∷ "by" ∷ "from" ∷ "as" ∷ "be" ∷ "was" ∷ "are" ∷ "were" ∷ "been" ∷ "has"
    ∷ "have" ∷ "had" ∷ "do" ∷ "does" ∷ "did" ∷ "will" ∷ "would" ∷ "could" ∷ "should" ∷ "this"
    ∷ "that" ∷ "these" ∷ "those" ∷ "not" ∷ "no" ∷ "so" ∷ "if" ∷ "then" ∷ []

-- What a map gives for a missing key.
abbrev pub count_of : Option ℕ → ℕ
count_of none = 0
count_of (some n) = n

abbrev pub list_of : Option (List Posting) → List Posting
list_of none = []
list_of (some ps) = ps

-- The loop of `Tokenize` over the words.
unfoldable pub keep_terms : (String → ℕ) → List String → List String
keep_terms size [] = []
keep_terms size (w ∷ ws) =
    let rest = keep_terms size ws in if ltb (size w) 2 || has w stop_words then rest else w ∷ rest

unfoldable pub tokenize : (String → List String) → (String → ℕ) → String → List String
unfolding keep_terms
tokenize fields size text = keep_terms size (fields text)

unfoldable pub has_doc : ℕ → List Posting → Bool
has_doc doc_id [] = false
has_doc doc_id (p ∷ ps) = p.doc_id == doc_id || has_doc doc_id ps

-- `append(postings[:i], postings[i+1:]...)` at the first posting of the document.
unfoldable pub drop_posting : ℕ → List Posting → List Posting
drop_posting doc_id [] = []
drop_posting doc_id (p ∷ ps) = if p.doc_id == doc_id then ps else p ∷ drop_posting doc_id ps

-- The loop of `AddDocument` over the term frequencies: the postings and their counts.
unfoldable pub add_postings :
    ℕ → Dict ℕ ℕ → Dict ℕ (List Posting) × Dict ℕ ℕ → Dict ℕ (List Posting) × Dict ℕ ℕ
add_postings doc_id [] (postings, df) = (postings, df)
add_postings doc_id ((term_id, freq) ∷ tf) (postings, df) = add_postings doc_id tf (
  Dict.insert term_id
      (list_of (Dict.lookup term_id postings) ++ (record { doc_id = doc_id; raw_tf = freq }) ∷ [])
      postings,
  Dict.insert term_id (count_of (Dict.lookup term_id df) + 1) df,
)

-- The loop of `RemoveDocument` over the posting lists. A count is not below 1 where there is a posting.
unfoldable pub remove_postings :
    ℕ → Dict ℕ (List Posting) → Dict ℕ ℕ → Dict ℕ (List Posting) × Dict ℕ ℕ
unfolding has_doc drop_posting
remove_postings doc_id [] df = ([], df)
remove_postings doc_id ((term_id, ps) ∷ entries) df =
    let (postings, counts) = remove_postings doc_id entries df in
    let left = count_of (Dict.lookup term_id counts) - 1 in
    if has_doc doc_id ps
    then if left == 0
      then (postings, Dict.delete term_id counts)
      else ((term_id, drop_posting doc_id ps) ∷ postings, Dict.insert term_id left counts)
    else ((term_id, ps) ∷ postings, counts)

module _ {F : Type 0} (floats : Floats F) where
  unfoldable pub new_index : F → F → InvertedIndex F
  new_index k1 b = record {
    postings = [];
    doc_lengths = [];
    term_df = [];
    total_docs = 0;
    avg_doc_len = floats.of_nat 0;
    vocab = [];
    next_term_id = 0;
    k1 = k1;
    b = b;
  }

  -- The id is a uint32.
  unfoldable pub term_id : InvertedIndex F → String → InvertedIndex F × ℕ
  term_id idx term = elim (Dict.lookup term idx.vocab) [
    | some id ↦ (idx, id)
    | none ↦ (
      record idx {
        vocab = Dict.insert term idx.next_term_id idx.vocab;
        next_term_id = (idx.next_term_id + 1) % 2 ^ 32;
      },
      idx.next_term_id,
    )
  ]

  -- The loop of `AddDocument` over the terms.
  unfoldable pub count_terms : InvertedIndex F → List String → Dict ℕ ℕ → InvertedIndex F × Dict ℕ ℕ
  unfolding term_id
  count_terms idx [] tf = (idx, tf)
  count_terms idx (t ∷ ts) tf =
      let (named, id) = term_id idx t in
      count_terms named ts (Dict.insert id (count_of (Dict.lookup id tf) + 1) tf)

  unfoldable mean_with : F → ℕ → ℕ → F
  mean_with mean n len =
      let total = floats.of_nat n in
      floats.plus (floats.over (floats.times mean (floats.minus total (floats.of_nat 1))) total)
        (floats.over (floats.of_nat len) total)

  unfoldable pub add_terms : InvertedIndex F → ℕ → List String → InvertedIndex F
  unfolding count_terms add_postings mean_with
  add_terms idx doc_id terms =
      let (named, tf) = count_terms idx terms [] in
      let (postings, df) = add_postings doc_id tf (named.postings, named.term_df) in
      record named {
        doc_lengths = Dict.insert doc_id (length terms) named.doc_lengths;
        total_docs = named.total_docs + 1;
        postings = postings;
        term_df = df;
        avg_doc_len = mean_with named.avg_doc_len (named.total_docs + 1) (length terms);
      }

  unfoldable pub add_document :
      (String → List String) → (String → ℕ) → InvertedIndex F → ℕ → String → InvertedIndex F
  unfolding tokenize add_terms
  add_document fields size idx doc_id text = add_terms idx doc_id (tokenize fields size text)

  unfoldable mean_without : F → ℕ → ℕ → F
  mean_without mean n len =
      if ltb 0 n
      then floats.over
          (floats.minus (floats.times mean (floats.plus (floats.of_nat n) (floats.of_nat 1)))
            (floats.of_nat len))
          (floats.of_nat n)
      else floats.of_nat 0

  unfoldable pub remove_document : InvertedIndex F → ℕ → InvertedIndex F
  unfolding remove_postings mean_without
  remove_document idx doc_id = elim (Dict.lookup doc_id idx.doc_lengths) [
    | none ↦ idx
    | some old_len ↦
        let (postings, df) = remove_postings doc_id idx.postings idx.term_df in
        record idx {
          postings = postings;
          term_df = df;
          doc_lengths = Dict.delete doc_id idx.doc_lengths;
          total_docs = idx.total_docs - 1;
          avg_doc_len = mean_without idx.avg_doc_len (idx.total_docs - 1) old_len;
        }
  ]
