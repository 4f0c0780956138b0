-- ===== src/Sparse/Additions.antt =====
-- The posting lists and their counts after an addition.
use magnitude.Common.{
  ℕ, ◌+◌, ◌-◌, ◌≡◌, refl, sym, ap, ◌∙◌, Bool, true, false, Option, none, some, List, [], ◌∷◌, ◌++◌,
  length, ◌==◌, nat_keyed, if◌then◌else◌, arith, Bool-cases, inl, inr,
}
use magnitude.Common.Dict
use magnitude.Common.Dict.{Dict}
use magnitude.Sparse.{Posting, count_of, list_of, has_doc, drop_posting, add_postings}

abbrev pub is_some : {A : Type 0} → Option A → Bool
is_some none = false
is_some (some a) = true

some_posting :
    (doc_id : ℕ) (ps : List Posting) → has_doc doc_id ps ≡ true → (length ps == 0) ≡ false
unfolding has_doc
some_posting doc_id [] h = cc
some_posting doc_id (p ∷ ps) h = ground arith

pub length-drop_posting :
    (doc_id : ℕ) (ps : List Posting)
    → length (drop_posting doc_id ps) ≡ (if has_doc doc_id ps then length ps - 1 else length ps)
unfolding has_doc drop_posting
length-drop_posting doc_id [] = refl
length-drop_posting doc_id (p ∷ ps) =
    ground (arith, length-drop_posting doc_id ps, some_posting doc_id ps)

-- The posting that a term frequency adds.
abbrev pub with_posting : ℕ → Option ℕ → List Posting → List Posting
with_posting doc_id none ps = ps
with_posting doc_id (some freq) ps = ps ++ (record { doc_id = doc_id; raw_tf = freq }) ∷ []

abbrev pub with_count : Option ℕ → ℕ → ℕ
with_count none n = n
with_count (some freq) n = n + 1

with_first :
    (doc_id term_id t freq : ℕ) (tf : Dict ℕ ℕ) (postings : Dict ℕ (List Posting))
    → Dict.lookup term_id tf ≡ none
    → with_posting doc_id (Dict.lookup t tf) (
        list_of (
          Dict.lookup t (
            Dict.insert term_id
              (with_posting doc_id (some freq) (list_of (Dict.lookup term_id postings)))
              postings)))
      ≡ with_posting doc_id
          (if term_id == t then some freq else Dict.lookup t tf)
          (list_of (Dict.lookup t postings))
with_first doc_id term_id t freq tf postings fresh =
    let stored =
      Dict.lookup-insert term_id t
        (with_posting doc_id (some freq) (list_of (Dict.lookup term_id postings))) postings in
    elim (Bool-cases (term_id == t)) [
      | inl here ↦
          let same = (nat_keyed.same_iff term_id t).0 here in
          rw (stored, here)
            (ap
                (λ o.
                  with_posting doc_id o
                    (with_posting doc_id (some freq) (list_of (Dict.lookup term_id postings))))
                (sym (ap (λ i. Dict.lookup i tf) same) ∙ fresh)
              ∙ ap (λ i. with_posting doc_id (some freq) (list_of (Dict.lookup i postings))) same)
      | inr other ↦ rw (stored, other) refl
    ]

pub list-add_postings :
    (doc_id t : ℕ) (tf : Dict ℕ ℕ) (postings : Dict ℕ (List Posting)) (df : Dict ℕ ℕ)
    → Dict.IsDistinct tf
    → list_of (Dict.lookup t ((add_postings doc_id tf (postings, df)).0))
      ≡ with_posting doc_id (Dict.lookup t tf) (list_of (Dict.lookup t postings))
unfolding add_postings Dict.lookup
list-add_postings doc_id t [] postings df d = refl
list-add_postings doc_id t ((term_id, freq) ∷ tf) postings df d =
    let added =
      list_of (Dict.lookup term_id postings) ++ (record { doc_id = doc_id; raw_tf = freq }) ∷ [] in
    let more = Dict.insert term_id added postings in
    let counts = Dict.insert term_id (count_of (Dict.lookup term_id df) + 1) df in
    list-add_postings doc_id t tf more counts d.1 ∙ with_first doc_id term_id t freq tf postings d.0

pub count-add_postings :
    (doc_id t : ℕ) (tf : Dict ℕ ℕ) (postings : Dict ℕ (List Posting)) (df : Dict ℕ ℕ)
    → Dict.IsDistinct tf
    → count_of (Dict.lookup t ((add_postings doc_id tf (postings, df)).1))
      ≡ with_count (Dict.lookup t tf) (count_of (Dict.lookup t df))
unfolding add_postings Dict.lookup
count-add_postings doc_id t [] postings df d = refl
count-add_postings doc_id t ((term_id, freq) ∷ tf) postings df d =
    let added =
      list_of (Dict.lookup term_id postings) ++ (record { doc_id = doc_id; raw_tf = freq }) ∷ [] in
    let more = Dict.insert term_id added postings in
    let n = count_of (Dict.lookup term_id df) + 1 in
    let counts = Dict.insert term_id n df in
    ground (
      arith,
      count-add_postings doc_id t tf more counts d.1,
      Dict.lookup-insert term_id t n df,
      d.0,
      nat_keyed.same_iff term_id t,
      λ (e : term_id ≡ t). ap (λ i. Dict.lookup i tf) e,
      λ (e : term_id ≡ t). ap (λ i. Dict.lookup i df) e,
    )
