-- ===== src/Sparse/Search.antt =====
-- `Search` of internal/index/sparse/inverted.go, and which documents it finds.
use magnitude.Common.{
  ℕ, zero, suc, ◌≤◌, ◌<◌, ◌≡◌, refl, ap, ◌∙◌, Bool, true, false, not, ◌&&◌, ◌||◌, String, Option,
  none, some, List, [], ◌∷◌, length, take, length-take, ltb, ◌==◌, nat_keyed, string_keyed,
  if◌then◌else◌, arith, Bool-cases, inl, inr,
}
use magnitude.Common.Dict
use magnitude.Common.Dict.{Dict}
use magnitude.Sparse.{
  Floats, Posting, SearchResult, InvertedIndex, count_of, list_of, tokenize, has_doc,
}
use magnitude.Sparse.Additions.{is_some}

-- The documents of a list of results.
unfoldable pub has_result : {F : Type 0} → ℕ → List (SearchResult F) → Bool
has_result d [] = false
has_result d (r ∷ rs) = r.doc_id == d || has_result d rs

or_assoc : {a : Bool} (b c e : Bool) → a ≡ (b || c) → (a || e) ≡ (b || (c || e))
or_assoc b c e h = ground (arith, h)

module _ {F : Type 0} (floats : Floats F) where
  unfoldable pub bm25_score : InvertedIndex F → ℕ → ℕ → ℕ → F
  bm25_score idx term_id raw_tf doc_len =
      let df = floats.of_nat (count_of (Dict.lookup term_id idx.term_df)) in
      let one = floats.of_nat 1 in
      let rare = floats.plus (floats.minus (floats.of_nat idx.total_docs) df) floats.half in
      let idf = floats.log (floats.plus one (floats.over rare (floats.plus df floats.half))) in
      let tf = floats.narrow (floats.of_nat raw_tf) in
      let dl = floats.of_nat doc_len in
      let long =
        floats.plus (floats.minus one idx.b)
          (floats.over (floats.times idx.b dl) idx.avg_doc_len) in
      let tf_norm =
        floats.over (floats.times tf (floats.plus idx.k1 one))
          (floats.plus tf (floats.times idx.k1 long)) in
      floats.narrow (floats.times idf tf_norm)

  abbrev score_of : Option F → F
  score_of none = floats.of_nat 0
  score_of (some s) = s

  -- The loop over the postings of a term.
  unfoldable add_scores : InvertedIndex F → ℕ → List Posting → Dict ℕ F → Dict ℕ F
  unfolding bm25_score
  add_scores idx term_id [] scores = scores
  add_scores idx term_id (p ∷ ps) scores =
      let doc_len = count_of (Dict.lookup p.doc_id idx.doc_lengths) in
      let score = bm25_score idx term_id p.raw_tf doc_len in
      add_scores idx term_id ps (
        Dict.insert p.doc_id (floats.plus_narrow (score_of (Dict.lookup p.doc_id scores)) score)
          scores)

  abbrev add_term : InvertedIndex F → Option ℕ → Dict ℕ F → Dict ℕ F
  add_term idx none scores = scores
  add_term idx (some term_id) scores =
      add_scores idx term_id (list_of (Dict.lookup term_id idx.postings)) scores

  -- The loop over the terms of the query.
  unfoldable score_terms : InvertedIndex F → List String → Dict ℕ F → Dict ℕ F
  unfolding add_scores
  score_terms idx [] scores = scores
  score_terms idx (t ∷ ts) scores =
      score_terms idx ts (add_term idx (Dict.lookup t idx.vocab) scores)

  unfoldable pub collect : Dict ℕ F → List (SearchResult F)
  collect [] = []
  collect ((doc_id, score) ∷ scores) = (record { doc_id = doc_id; score = score }) ∷ collect scores

  -- `sort.Slice` by falling scores, as insertion sort.
  unfoldable insert_result : SearchResult F → List (SearchResult F) → List (SearchResult F)
  insert_result r [] = r ∷ []
  insert_result r (q ∷ qs) =
      if floats.above r.score q.score then r ∷ q ∷ qs else q ∷ insert_result r qs

  unfoldable sort_results : List (SearchResult F) → List (SearchResult F)
  unfolding insert_result
  sort_results [] = []
  sort_results (r ∷ rs) = insert_result r (sort_results rs)

  unfoldable search_terms : InvertedIndex F → List String → ℕ → List (SearchResult F)
  unfolding score_terms collect sort_results
  search_terms idx terms k =
      if idx.total_docs == 0 || k == 0
      then []
      else if length terms == 0
      then []
      else take k (sort_results (collect (score_terms idx terms [])))

  unfoldable pub search :
      (String → List String) → (String → ℕ) → InvertedIndex F → String → ℕ → List (SearchResult F)
  unfolding tokenize search_terms
  search fields size idx query k = search_terms idx (tokenize fields size query) k

  -- Some term of the query has a posting of the document.
  abbrev in_list : InvertedIndex F → Option ℕ → ℕ → Bool
  in_list idx none d = false
  in_list idx (some term_id) d = has_doc d (list_of (Dict.lookup term_id idx.postings))

  unfoldable pub matches : InvertedIndex F → List String → ℕ → Bool
  matches idx [] d = false
  matches idx (t ∷ ts) d = in_list idx (Dict.lookup t idx.vocab) d || matches idx ts d

  stored_score :
      (p : Posting) (d : ℕ) (ps : List Posting) (score : F) (scores : Dict ℕ F)
      → (is_some (Dict.lookup d (Dict.insert p.doc_id score scores)) || has_doc d ps)
        ≡ (is_some (Dict.lookup d scores) || (p.doc_id == d || has_doc d ps))
  stored_score p d ps score scores = rw (Dict.lookup-insert p.doc_id d score scores) (ground arith)

  add_scores_lem :
      (idx : InvertedIndex F) (term_id d : ℕ) (ps : List Posting) (scores : Dict ℕ F)
      → is_some (Dict.lookup d (add_scores idx term_id ps scores))
        ≡ (is_some (Dict.lookup d scores) || has_doc d ps)
  unfolding add_scores has_doc
  add_scores_lem idx term_id d [] scores = ground arith
  add_scores_lem idx term_id d (p ∷ ps) scores =
      let doc_len = count_of (Dict.lookup p.doc_id idx.doc_lengths) in
      let score =
        floats.plus_narrow (score_of (Dict.lookup p.doc_id scores))
          (bm25_score idx term_id p.raw_tf doc_len) in
      add_scores_lem idx term_id d ps (Dict.insert p.doc_id score scores)
      ∙ stored_score p d ps score scores

  add_term_lem :
      (idx : InvertedIndex F) (o : Option ℕ) (d : ℕ) (scores : Dict ℕ F)
      → is_some (Dict.lookup d (add_term idx o scores))
        ≡ (is_some (Dict.lookup d scores) || in_list idx o d)
  add_term_lem idx none d scores = ground arith
  add_term_lem idx (some term_id) d scores =
      add_scores_lem idx term_id d (list_of (Dict.lookup term_id idx.postings)) scores

  score_terms_lem :
      (idx : InvertedIndex F) (ts : List String) (d : ℕ) (scores : Dict ℕ F)
      → is_some (Dict.lookup d (score_terms idx ts scores))
        ≡ (is_some (Dict.lookup d scores) || matches idx ts d)
  unfolding score_terms matches
  score_terms_lem idx [] d scores = ground arith
  score_terms_lem idx (t ∷ ts) d scores =
      let o = Dict.lookup t idx.vocab in
      score_terms_lem idx ts d (add_term idx o scores)
      ∙ or_assoc (is_some (Dict.lookup d scores)) (in_list idx o d) (matches idx ts d)
          (add_term_lem idx o d scores)

  has_result-collect :
      (d : ℕ) (scores : Dict ℕ F) → has_result d (collect scores) ≡ is_some (Dict.lookup d scores)
  unfolding has_result collect Dict.lookup
  has_result-collect d [] = refl
  has_result-collect d ((doc_id, score) ∷ scores) = ground (arith, has_result-collect d scores)

  has_result-insert :
      (d : ℕ) (r : SearchResult F) (rs : List (SearchResult F))
      → has_result d (insert_result r rs) ≡ (r.doc_id == d || has_result d rs)
  unfolding has_result insert_result
  has_result-insert d r [] = refl
  has_result-insert d r (q ∷ qs) = ground (arith, has_result-insert d r qs)

  has_result-sort :
      (d : ℕ) (rs : List (SearchResult F)) → has_result d (sort_results rs) ≡ has_result d rs
  unfolding has_result sort_results
  has_result-sort d [] = refl
  has_result-sort d (r ∷ rs) =
      ground (arith, has_result-insert d r (sort_results rs), has_result-sort d rs)

  has_result-take :
      (d k : ℕ) (rs : List (SearchResult F))
      → has_result d (take k rs) ≡ true
      → has_result d rs ≡ true
  unfolding has_result
  has_result-take d zero rs h = cc
  has_result-take d (suc k) [] h = h
  has_result-take d (suc k) (r ∷ rs) h = ground (arith, h, has_result-take d k rs)

  take_short : (k : ℕ) (rs : List (SearchResult F)) → length (take k rs) < k → take k rs ≡ rs
  take_short zero rs h = absurd (omega (arith, h))
  take_short (suc k) [] h = refl
  take_short (suc k) (r ∷ rs) h = ap (λ qs. r ∷ qs) (take_short k rs (omega (arith, h)))

  found_lem :
      (idx : InvertedIndex F) (terms : List String) (d : ℕ)
      → has_result d (sort_results (collect (score_terms idx terms []))) ≡ matches idx terms d
  unfolding Dict.lookup
  found_lem idx terms d =
      has_result-sort d (collect (score_terms idx terms []))
      ∙ has_result-collect d (score_terms idx terms [])
      ∙ score_terms_lem idx terms d []

  abbrev IsExact : List (SearchResult F) → InvertedIndex F → List String → ℕ → ℕ → Type 0
  IsExact rs idx terms k d =
      (length rs ≤ k)
      × (((has_result d rs && not (matches idx terms d)) ≡ false)
          × ((ltb 0 idx.total_docs
                && (ltb (length rs) k && (matches idx terms d && not (has_result d rs))))
              ≡ false))

  taken :
      (idx : InvertedIndex F) (terms : List String) (k d : ℕ)
      → IsExact (take k (sort_results (collect (score_terms idx terms [])))) idx terms k d
  taken idx terms k d =
      let all = sort_results (collect (score_terms idx terms [])) in
      let found = found_lem idx terms d in
      (
        omega (arith, length-take k all),
        (
          ground (arith, has_result-take d k all, found),
          elim (Bool-cases (ltb (length (take k all)) k)) [
            | inl short ↦
                let whole = ap (has_result d) (take_short k all (ground (arith, short))) in
                ground (arith, whole, found)
            | inr full ↦ ground (arith, full)
          ],
        ),
      )

  nothing :
      (idx : InvertedIndex F) (terms : List String) (k d : ℕ)
      → (idx.total_docs == 0 || (k == 0 || length terms == 0)) ≡ true
      → IsExact [] idx terms k d
  unfolding has_result matches
  nothing idx [] k d h = (omega arith, (refl, ground arith))
  nothing idx (t ∷ ts) k d h = (omega arith, (refl, ground (arith, h)))

  -- `Search` gives at most `k` results, each of a document that has a posting of some term of the
  -- query; if the index has documents and there are fewer than `k` results, no such document is
  -- missing.
  pub search_exact :
      (fields : String → List String) (size : String → ℕ) (idx : InvertedIndex F) (query : String)
      (k d : ℕ)
      → (length (search fields size idx query k) ≤ k)
        × (((has_result d (search fields size idx query k)
                && not (matches idx (tokenize fields size query) d))
              ≡ false)
            × ((ltb 0 idx.total_docs
                  && (ltb (length (search fields size idx query k)) k
                      && (matches idx (tokenize fields size query) d
                          && not (has_result d (search fields size idx query k)))))
                ≡ false))
  unfolding search search_terms
  search_exact fields size idx query k d =
      let terms = tokenize fields size query in
      elim (Bool-cases (idx.total_docs == 0 || k == 0)) [
        | inl idle ↦ rw (search_terms, idle) (nothing idx terms k d (ground (arith, idle)))
        | inr busy ↦ elim (Bool-cases (length terms == 0)) [
          | inl empty ↦
              rw (search_terms, busy, empty) (nothing idx terms k d (ground (arith, empty)))
          | inr some_terms ↦ rw (search_terms, busy, some_terms) (taken idx terms k d)
        ]
      ]
