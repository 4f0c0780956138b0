-- ===== src/Sparse/Effects.antt =====
-- What AddDocument and RemoveDocument leave of an index.
use magnitude.Common.{
  ℕ, ◌+◌, ◌-◌, ◌≡◌, refl, sym, ap, subst, ◌∙◌, true, false, String, Option, none, some, List, [],
  length, ◌==◌, nat_keyed, string_keyed, if◌then◌else◌, arith,
}
use magnitude.Common.Dict
use magnitude.Common.Dict.{Dict}
use magnitude.Sparse.{
  Floats, Posting, InvertedIndex, count_of, list_of, drop_posting, count_terms, add_terms,
  remove_document,
}
use magnitude.Sparse.Additions.{
  is_some, with_posting, with_count, list-add_postings, count-add_postings,
}
use magnitude.Sparse.Removals.{list-remove_postings, remove_postings-IsDistinct}
use magnitude.Sparse.Valid.{
  occurrences, occurrences-drop, length-with_posting, occurrences-with_posting, IsValid,
  count_terms-Kept, add_postings-IsDistinct,
}

module _ {F : Type 0} (floats : Floats F) where
  -- What `add_terms` leaves of an index.
  pub record Added (idx : InvertedIndex F) (doc_id : ℕ) (terms : List String) (tf : Dict ℕ ℕ)
      (after : InvertedIndex F) : Type 0 where
    pub list :
        (t : ℕ)
        → list_of (Dict.lookup t after.postings)
          ≡ with_posting doc_id (Dict.lookup t tf) (list_of (Dict.lookup t idx.postings))
    pub count :
        (t : ℕ)
        → count_of (Dict.lookup t after.term_df)
          ≡ with_count (Dict.lookup t tf) (count_of (Dict.lookup t idx.term_df))
    pub doc_lengths : after.doc_lengths ≡ Dict.insert doc_id (length terms) idx.doc_lengths
    pub total_docs : after.total_docs ≡ idx.total_docs + 1
    pub distinct : Dict.IsDistinct idx.postings → Dict.IsDistinct after.postings

  abbrev pub frequencies : InvertedIndex F → List String → Dict ℕ ℕ
  frequencies idx terms = (count_terms floats idx terms []).1

  pub add_terms-Added :
      (idx : InvertedIndex F) (doc_id : ℕ) (terms : List String)
      → Added idx doc_id terms (frequencies idx terms) (add_terms floats idx doc_id terms)
  unfolding add_terms
  add_terms-Added idx doc_id terms =
      let (named, tf) = count_terms floats idx terms [] in
      let (kept, d) = count_terms-Kept floats idx terms [] tt in
      record {
        list = λ t.
            list-add_postings doc_id t tf named.postings named.term_df d
            ∙ ap (λ m. with_posting doc_id (Dict.lookup t tf) (list_of (Dict.lookup t m)))
                kept.postings;
        count = λ t.
            count-add_postings doc_id t tf named.postings named.term_df d
            ∙ ap (λ m. with_count (Dict.lookup t tf) (count_of (Dict.lookup t m))) kept.term_df;
        doc_lengths = ap (λ m. Dict.insert doc_id (length terms) m) kept.doc_lengths;
        total_docs = ap (λ n. n + 1) kept.total_docs;
        distinct = λ e.
            add_postings-IsDistinct doc_id tf named.postings named.term_df
              (subst Dict.IsDistinct (sym kept.postings) e);
      }

  occurs :
      {idx after : InvertedIndex F} {doc_id : ℕ} {terms : List String} {tf : Dict ℕ ℕ}
      → Added idx doc_id terms tf after
      → (t d : ℕ)
      → occurrences d (list_of (Dict.lookup t after.postings))
        ≡ occurrences d (list_of (Dict.lookup t idx.postings))
          + (if is_some (Dict.lookup t tf) then (if doc_id == d then 1 else 0) else 0)
  occurs {idx} {after} {doc_id} {terms} {tf} a t d =
      ap (λ ps. occurrences d ps) (a.list t)
      ∙ occurrences-with_posting doc_id d (Dict.lookup t tf) (list_of (Dict.lookup t idx.postings))

  absent_zero :
      {idx : InvertedIndex F} (doc_id : ℕ)
      → IsValid idx
      → Dict.lookup doc_id idx.doc_lengths ≡ none
      → (t d : ℕ) → (doc_id == d) ≡ true
      → occurrences d (list_of (Dict.lookup t idx.postings)) ≡ 0
  absent_zero {idx} doc_id v fresh t d here = v.known t d (
      ap (λ i. is_some (Dict.lookup i idx.doc_lengths)) (sym ((nat_keyed.same_iff doc_id d).0 here))
      ∙ ap is_some fresh)

  pub Added-IsValid :
      {idx after : InvertedIndex F} {doc_id : ℕ} {terms : List String} {tf : Dict ℕ ℕ}
      → Added idx doc_id terms tf after
      → IsValid idx
      → Dict.lookup doc_id idx.doc_lengths ≡ none
      → IsValid after
  Added-IsValid {idx} {after} {doc_id} {terms} {tf} a v fresh = record {
    counted = λ t.
        a.count t
        ∙ ap (λ n. with_count (Dict.lookup t tf) n) (v.counted t)
        ∙ sym (length-with_posting doc_id (Dict.lookup t tf) (list_of (Dict.lookup t idx.postings)))
        ∙ ap length (sym (a.list t));
    once = λ t d. ground (arith, occurs a t d, v.once t d, absent_zero doc_id v fresh t d);
    known = λ t d h. ground (
      arith,
      h,
      a.doc_lengths,
      Dict.lookup-insert doc_id d (length terms) idx.doc_lengths,
      occurs a t d,
      v.known t d,
      ap (λ m. Dict.lookup d m) a.doc_lengths,
    );
    totals = ground (
      arith,
      a.total_docs,
      v.totals,
      ap length a.doc_lengths,
      Dict.length-insert doc_id (length terms) idx.doc_lengths,
      fresh,
    );
    terms_distinct = a.distinct v.terms_distinct;
    docs_distinct =
        subst Dict.IsDistinct (sym a.doc_lengths)
          (Dict.insert-IsDistinct doc_id (length terms) idx.doc_lengths v.docs_distinct);
  }

  -- What `remove_document` leaves of an index that has the document.
  pub record Removed (idx : InvertedIndex F) (doc_id : ℕ) (after : InvertedIndex F) : Type 0 where
    pub list :
        (t : ℕ)
        → list_of (Dict.lookup t after.postings)
          ≡ drop_posting doc_id (list_of (Dict.lookup t idx.postings))
    pub count :
        (t : ℕ)
        → count_of (Dict.lookup t after.term_df) ≡ length (list_of (Dict.lookup t after.postings))
    pub doc_lengths : after.doc_lengths ≡ Dict.delete doc_id idx.doc_lengths
    pub total_docs : after.total_docs ≡ idx.total_docs - 1
    pub distinct : Dict.IsDistinct idx.postings → Dict.IsDistinct after.postings

  no_list :
      (o : Option (List Posting)) (doc_id : ℕ)
      → is_some o ≡ false
      → (drop_posting doc_id (list_of o) ≡ []) × (list_of o ≡ [])
  unfolding drop_posting
  no_list none doc_id h = (refl, refl)
  no_list (some ps) doc_id h = cc

  pub remove_document-Removed :
      (idx : InvertedIndex F) (doc_id old_len : ℕ)
      → ((t : ℕ)
          → count_of (Dict.lookup t idx.term_df) ≡ length (list_of (Dict.lookup t idx.postings)))
      → Dict.IsDistinct idx.postings
      → Dict.lookup doc_id idx.doc_lengths ≡ some old_len
      → Removed idx doc_id (remove_document floats idx doc_id)
  unfolding remove_document
  remove_document-Removed idx doc_id old_len c d found =
      rw (remove_document, found)
        (record {
          list = λ t. (list-remove_postings doc_id t idx.postings idx.term_df d (λ u h. c u)).0;
          count = λ t.
              let both = list-remove_postings doc_id t idx.postings idx.term_df d (λ u h. c u) in
              ground (arith, both.0, both.1, c t, no_list (Dict.lookup t idx.postings) doc_id);
          doc_lengths = refl;
          total_docs = refl;
          distinct = λ e. remove_postings-IsDistinct doc_id idx.postings idx.term_df e;
        })

  pub left :
      {idx after : InvertedIndex F} {doc_id : ℕ}
      → Removed idx doc_id after
      → (t d : ℕ)
      → occurrences d (list_of (Dict.lookup t after.postings)) ≡ (
          if doc_id == d
          then occurrences d (list_of (Dict.lookup t idx.postings)) - 1
          else occurrences d (list_of (Dict.lookup t idx.postings)))
  left {idx} {after} {doc_id} r t d =
      ap (λ ps. occurrences d ps) (r.list t)
      ∙ occurrences-drop doc_id d (list_of (Dict.lookup t idx.postings))

  pub Removed-IsValid :
      {idx after : InvertedIndex F} (doc_id old_len : ℕ)
      → Removed idx doc_id after
      → IsValid idx
      → Dict.lookup doc_id idx.doc_lengths ≡ some old_len
      → IsValid after
  Removed-IsValid {idx} {after} doc_id old_len r v found = record {
    counted = r.count;
    once = λ t d. ground (arith, left r t d, v.once t d);
    known = λ t d h. ground (
      arith,
      h,
      left r t d,
      v.once t d,
      v.known t d,
      ap (λ m. Dict.lookup d m) r.doc_lengths,
      Dict.lookup-delete doc_id d idx.doc_lengths,
    );
    totals = ground (
      arith,
      r.total_docs,
      v.totals,
      ap length r.doc_lengths,
      Dict.length-delete doc_id idx.doc_lengths old_len v.docs_distinct found,
    );
    terms_distinct = r.distinct v.terms_distinct;
    docs_distinct =
        subst Dict.IsDistinct (sym r.doc_lengths)
          (Dict.delete-IsDistinct doc_id idx.doc_lengths v.docs_distinct);
  }
