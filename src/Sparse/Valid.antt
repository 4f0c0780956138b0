-- ===== src/Sparse/Valid.antt =====
-- An index whose counts, lengths and lists agree, and what documents that come and go leave of it.
use magnitude.Common.{
  ℕ, ◌+◌, ◌-◌, ◌≤◌, ◌≡◌, refl, ap, ◌∙◌, true, false, String, Option, none, some, List, [], ◌∷◌,
  ◌++◌, length, length-append, ◌==◌, nat_keyed, string_keyed, if◌then◌else◌, arith, Bool-cases,
  Option-cases, inl, inr,
}
use magnitude.Common.Dict
use magnitude.Common.Dict.{Dict}
use magnitude.Sparse.{
  Floats, Posting, InvertedIndex, count_of, list_of, drop_posting, add_postings, term_id,
  count_terms,
}
use magnitude.Sparse.Additions.{is_some, with_posting, with_count}

-- The postings of a document in a list.
unfoldable pub occurrences : ℕ → List Posting → ℕ
occurrences doc_id [] = 0
occurrences doc_id (p ∷ ps) = (if p.doc_id == doc_id then 1 else 0) + occurrences doc_id ps

occurrences-append :
    (doc_id : ℕ) (ps : List Posting) (p : Posting)
    → occurrences doc_id (ps ++ p ∷ [])
      ≡ occurrences doc_id ps + (if p.doc_id == doc_id then 1 else 0)
unfolding occurrences
occurrences-append doc_id [] p = omega arith
occurrences-append doc_id (q ∷ ps) p = ground (arith, occurrences-append doc_id ps p)

pub occurrences-drop :
    (doc_id d : ℕ) (ps : List Posting)
    → occurrences d (drop_posting doc_id ps)
      ≡ (if doc_id == d then occurrences d ps - 1 else occurrences d ps)
unfolding occurrences drop_posting
occurrences-drop doc_id d [] = ground arith
occurrences-drop doc_id d (q ∷ ps) = ground (arith, occurrences-drop doc_id d ps)

drop-append :
    (doc_id : ℕ) (ps : List Posting) (p : Posting)
    → (p.doc_id == doc_id) ≡ true
    → occurrences doc_id ps ≡ 0
    → drop_posting doc_id (ps ++ p ∷ []) ≡ ps
unfolding occurrences drop_posting
drop-append doc_id [] p h e = rw h refl
drop-append doc_id (q ∷ ps) p h e = elim (Bool-cases (q.doc_id == doc_id)) [
  | inl same ↦ absurd (ground (arith, same, e))
  | inr other ↦ rw other (ap (λ qs. q ∷ qs) (drop-append doc_id ps p h (ground (arith, other, e))))
]

pub length-with_posting :
    (doc_id : ℕ) (o : Option ℕ) (ps : List Posting)
    → length (with_posting doc_id o ps) ≡ with_count o (length ps)
length-with_posting doc_id none ps = refl
length-with_posting doc_id (some freq) ps =
    length-append ps ((record { doc_id = doc_id; raw_tf = freq }) ∷ [])

pub occurrences-with_posting :
    (doc_id d : ℕ) (o : Option ℕ) (ps : List Posting)
    → occurrences d (with_posting doc_id o ps)
      ≡ occurrences d ps + (if is_some o then (if doc_id == d then 1 else 0) else 0)
occurrences-with_posting doc_id d none ps = omega arith
occurrences-with_posting doc_id d (some freq) ps =
    occurrences-append d ps (record { doc_id = doc_id; raw_tf = freq })

drop_nothing :
    (doc_id : ℕ) (ps : List Posting) → occurrences doc_id ps ≡ 0 → drop_posting doc_id ps ≡ ps
unfolding occurrences drop_posting
drop_nothing doc_id [] h = refl
drop_nothing doc_id (p ∷ ps) h = elim (Bool-cases (p.doc_id == doc_id)) [
  | inl same ↦ absurd (ground (arith, same, h))
  | inr other ↦ rw other (ap (λ qs. p ∷ qs) (drop_nothing doc_id ps (ground (arith, other, h))))
]

pub drop-with_posting :
    (doc_id : ℕ) (o : Option ℕ) (ps : List Posting)
    → occurrences doc_id ps ≡ 0
    → drop_posting doc_id (with_posting doc_id o ps) ≡ ps
drop-with_posting doc_id none ps h = drop_nothing doc_id ps h
drop-with_posting doc_id (some freq) ps h =
    drop-append doc_id ps (record { doc_id = doc_id; raw_tf = freq }) (ground arith) h

pub record IsValid {F : Type 0} (idx : InvertedIndex F) : Type 0 where
  pub counted :
      (t : ℕ) → count_of (Dict.lookup t idx.term_df) ≡ length (list_of (Dict.lookup t idx.postings))
  pub once : (t d : ℕ) → occurrences d (list_of (Dict.lookup t idx.postings)) ≤ 1
  pub known :
      (t d : ℕ)
      → is_some (Dict.lookup d idx.doc_lengths) ≡ false
      → occurrences d (list_of (Dict.lookup t idx.postings)) ≡ 0
  pub totals : idx.total_docs ≡ length idx.doc_lengths
  pub terms_distinct : Dict.IsDistinct idx.postings
  pub docs_distinct : Dict.IsDistinct idx.doc_lengths

pub add_postings-IsDistinct :
    (doc_id : ℕ) (tf : Dict ℕ ℕ) (postings : Dict ℕ (List Posting)) (df : Dict ℕ ℕ)
    → Dict.IsDistinct postings
    → Dict.IsDistinct ((add_postings doc_id tf (postings, df)).0)
unfolding add_postings
add_postings-IsDistinct doc_id [] postings df d = d
add_postings-IsDistinct doc_id ((t, freq) ∷ tf) postings df d =
    let more =
      list_of (Dict.lookup t postings) ++ (record { doc_id = doc_id; raw_tf = freq }) ∷ [] in
    add_postings-IsDistinct doc_id tf (Dict.insert t more postings)
      (Dict.insert t (count_of (Dict.lookup t df) + 1) df)
      (Dict.insert-IsDistinct t more postings d)

module _ {F : Type 0} (floats : Floats F) where
  -- Naming terms changes neither the postings nor the statistics.
  pub record Kept (idx named : InvertedIndex F) : Type 0 where
    pub postings : named.postings ≡ idx.postings
    pub doc_lengths : named.doc_lengths ≡ idx.doc_lengths
    pub term_df : named.term_df ≡ idx.term_df
    pub total_docs : named.total_docs ≡ idx.total_docs

  term_id-Kept : (idx : InvertedIndex F) (t : String) → Kept idx ((term_id floats idx t).0)
  unfolding term_id
  term_id-Kept idx t = elim (Option-cases (Dict.lookup t idx.vocab)) [
    | inl fresh ↦
        rw (term_id, fresh)
          (record { postings = refl; doc_lengths = refl; term_df = refl; total_docs = refl })
    | inr (id, found) ↦
        rw (term_id, found)
          (record { postings = refl; doc_lengths = refl; term_df = refl; total_docs = refl })
  ]

  pub count_terms-Kept :
      (idx : InvertedIndex F) (ts : List String) (tf : Dict ℕ ℕ)
      → Dict.IsDistinct tf
      → Kept idx ((count_terms floats idx ts tf).0)
        × Dict.IsDistinct ((count_terms floats idx ts tf).1)
  unfolding count_terms
  count_terms-Kept idx [] tf d =
      (record { postings = refl; doc_lengths = refl; term_df = refl; total_docs = refl }, d)
  count_terms-Kept idx (t ∷ ts) tf d =
      let (named, id) = term_id floats idx t in
      let one = term_id-Kept idx t in
      let n = count_of (Dict.lookup id tf) + 1 in
      let (rest, distinct) =
        count_terms-Kept named ts (Dict.insert id n tf) (Dict.insert-IsDistinct id n tf d) in
      (
        record {
          postings = rest.postings ∙ one.postings;
          doc_lengths = rest.doc_lengths ∙ one.doc_lengths;
          term_df = rest.term_df ∙ one.term_df;
          total_docs = rest.total_docs ∙ one.total_docs;
        },
        distinct,
      )
