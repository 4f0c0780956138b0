-- ===== src/Sparse/Documents.antt =====
-- Documents that come and go: `AddDocument` and `RemoveDocument`.
use magnitude.Common.{
  ℕ, ◌≡◌, refl, sym, ap, ◌∙◌, String, none, List, length, nat_keyed, string_keyed, arith, same_refl,
  Option-cases, inl, inr,
}
use magnitude.Common.Dict
use magnitude.Common.Dict.{Dict}
use magnitude.Sparse.{
  Floats, InvertedIndex, count_of, list_of, tokenize, drop_posting, add_terms, add_document,
  remove_document,
}
use magnitude.Sparse.Additions.{is_some}
use magnitude.Sparse.Valid.{occurrences, drop-with_posting, IsValid}
use magnitude.Sparse.Effects.{
  Added, frequencies, add_terms-Added, Added-IsValid, Removed, remove_document-Removed, left,
  Removed-IsValid,
}

-- The same lists, counts and lengths.
pub record Alike {F : Type 0} (idx after : InvertedIndex F) : Type 0 where
  pub lists :
      (t : ℕ) → list_of (Dict.lookup t after.postings) ≡ list_of (Dict.lookup t idx.postings)
  pub counts :
      (t : ℕ) → count_of (Dict.lookup t after.term_df) ≡ count_of (Dict.lookup t idx.term_df)
  pub lengths : (d : ℕ) → Dict.lookup d after.doc_lengths ≡ Dict.lookup d idx.doc_lengths
  pub number : after.total_docs ≡ idx.total_docs

module _ {F : Type 0} (floats : Floats F) where
  back :
      (idx after last : InvertedIndex F) (doc_id : ℕ) (terms : List String) (tf : Dict ℕ ℕ)
      → Added floats idx doc_id terms tf after
      → Removed floats after doc_id last
      → IsValid idx
      → Dict.lookup doc_id idx.doc_lengths ≡ none
      → Alike idx last
  back idx after last doc_id terms tf a r v fresh = record {
    lists = same_list;
    counts = λ t. r.count t ∙ ap length (same_list t) ∙ sym (v.counted t);
    lengths = λ d.
        ap (λ m. Dict.lookup d m) r.doc_lengths
        ∙ ap (λ m. Dict.lookup d (Dict.delete doc_id m)) a.doc_lengths
        ∙ ground (
          arith,
          Dict.lookup-delete doc_id d (Dict.insert doc_id (length terms) idx.doc_lengths),
          Dict.lookup-insert doc_id d (length terms) idx.doc_lengths,
          fresh,
          ap (λ i. Dict.lookup i idx.doc_lengths) {x = doc_id} {y = d},
          nat_keyed.same_iff doc_id d,
        );
    number = omega (arith, r.total_docs, a.total_docs);
  }
    where
      same_list :
          (t : ℕ) → list_of (Dict.lookup t last.postings) ≡ list_of (Dict.lookup t idx.postings)
      same_list t =
          r.list t
          ∙ ap (drop_posting doc_id) (a.list t)
          ∙ drop-with_posting doc_id (Dict.lookup t tf) (list_of (Dict.lookup t idx.postings))
              (v.known t doc_id (ap is_some fresh))

  -- `RemoveDocument` keeps a valid index valid, and no list has a posting of the document any more.
  pub remove_document-IsValid :
      (idx : InvertedIndex F) (doc_id : ℕ)
      → IsValid idx
      → IsValid (remove_document floats idx doc_id)
        × ((t : ℕ)
            → occurrences doc_id
                (list_of (Dict.lookup t (remove_document floats idx doc_id).postings))
              ≡ 0)
  unfolding remove_document
  remove_document-IsValid idx doc_id v = elim (Option-cases (Dict.lookup doc_id idx.doc_lengths)) [
    | inl absent ↦ rw (remove_document, absent) (v, λ t. v.known t doc_id (ap is_some absent))
    | inr (old_len, found) ↦
        let r =
          remove_document-Removed floats idx doc_id old_len v.counted v.terms_distinct found in
        (
          Removed-IsValid floats doc_id old_len r v found,
          λ t. ground (arith, left floats r t doc_id, v.once t doc_id),
        )
  ]

  module _ (fields : String → List String) (size : String → ℕ) where
    -- `AddDocument` of a document that the index does not have keeps it valid: every document frequency
    -- is the length of its posting list, no list has a document twice, every posting is of a document
    -- with a length, and the number of documents is that of the lengths.
    pub add_document-IsValid :
        (idx : InvertedIndex F) (doc_id : ℕ) (text : String)
        → IsValid idx
        → Dict.lookup doc_id idx.doc_lengths ≡ none
        → IsValid (add_document floats fields size idx doc_id text)
    unfolding add_document
    add_document-IsValid idx doc_id text v fresh =
        Added-IsValid floats (add_terms-Added floats idx doc_id (tokenize fields size text)) v fresh

    -- To add a document that a valid index does not have and to remove it again leaves the posting
    -- lists, the document frequencies floats, the lengths of documents and their number as they were.
    pub remove_document-add_document :
        (idx : InvertedIndex F) (doc_id : ℕ) (text : String)
        → IsValid idx
        → Dict.lookup doc_id idx.doc_lengths ≡ none
        → Alike idx
            (remove_document floats (add_document floats fields size idx doc_id text) doc_id)
    unfolding add_document
    remove_document-add_document idx doc_id text v fresh =
        let terms = tokenize fields size text in
        let a = add_terms-Added floats idx doc_id terms in
        let after = add_terms floats idx doc_id terms in
        let w = Added-IsValid floats a v fresh in
        let found =
          ap (λ m. Dict.lookup doc_id m) a.doc_lengths
          ∙ Dict.lookup-insert doc_id doc_id (length terms) idx.doc_lengths
          ∙ rw (same_refl doc_id) refl in
        let r =
          remove_document-Removed floats after doc_id (length terms) w.counted w.terms_distinct
            found in
        back idx after (remove_document floats after doc_id) doc_id terms
          (frequencies floats idx terms) a r v fresh
