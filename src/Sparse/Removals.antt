-- ===== src/Sparse/Removals.antt =====
-- The posting lists and their counts after a removal.
use magnitude.Common.{
  ℕ, ◌-◌, ◌≡◌, refl, sym, ap, ◌∙◌, true, false, Option, none, some, List, [], ◌∷◌, length, ◌==◌,
  nat_keyed, if◌then◌else◌, arith, Bool-cases, inl, inr,
}
use magnitude.Common.Dict
use magnitude.Common.Dict.{Dict}
use magnitude.Sparse.{Posting, count_of, list_of, has_doc, drop_posting, remove_postings}
use magnitude.Sparse.Additions.{is_some, length-drop_posting}

-- Postings whose lists the counts measure.
abbrev Counts : Dict ℕ (List Posting) → Dict ℕ ℕ → Type 0
Counts postings df =
    (t : ℕ)
    → is_some (Dict.lookup t postings) ≡ true
    → count_of (Dict.lookup t df) ≡ length (list_of (Dict.lookup t postings))

drop_absent :
    (doc_id : ℕ) (ps : List Posting) → has_doc doc_id ps ≡ false → drop_posting doc_id ps ≡ ps
unfolding has_doc drop_posting
drop_absent doc_id [] h = refl
drop_absent doc_id (p ∷ ps) h = elim (Bool-cases (p.doc_id == doc_id)) [
  | inl same ↦ absurd (ground (arith, same, h))
  | inr other ↦ rw other (ap (λ qs. p ∷ qs) (drop_absent doc_id ps (ground (arith, other, h))))
]

length_zero : (ps : List Posting) → length ps ≡ 0 → ps ≡ []
length_zero [] h = refl
length_zero (p ∷ ps) h = absurd (omega (arith, h))

-- One posting list of `remove_postings`, after the others.
abbrev first_list :
    ℕ → ℕ → List Posting → Dict ℕ (List Posting) → Dict ℕ ℕ → Dict ℕ (List Posting) × Dict ℕ ℕ
first_list doc_id term_id ps postings counts =
    let left = count_of (Dict.lookup term_id counts) - 1 in
    if has_doc doc_id ps
    then if left == 0
      then (postings, Dict.delete term_id counts)
      else ((term_id, drop_posting doc_id ps) ∷ postings, Dict.insert term_id left counts)
    else ((term_id, ps) ∷ postings, counts)

first_list_other :
    (doc_id term_id t : ℕ) (ps : List Posting) (postings : Dict ℕ (List Posting))
    (counts : Dict ℕ ℕ)
    → (term_id == t) ≡ false
    → (Dict.lookup t ((first_list doc_id term_id ps postings counts).0) ≡ Dict.lookup t postings)
      × (Dict.lookup t ((first_list doc_id term_id ps postings counts).1) ≡ Dict.lookup t counts)
unfolding Dict.lookup
first_list_other doc_id term_id t ps postings counts other =
    let left = count_of (Dict.lookup term_id counts) - 1 in
    let gone = Dict.lookup-delete term_id t counts in
    let less = Dict.lookup-insert term_id t left counts in
    (ground (arith, other), ground (arith, other, gone, less))

first_list_here :
    (doc_id term_id : ℕ) (ps : List Posting) (postings : Dict ℕ (List Posting)) (counts : Dict ℕ ℕ)
    → Dict.lookup term_id postings ≡ none
    → count_of (Dict.lookup term_id counts) ≡ length ps
    → (list_of (Dict.lookup term_id ((first_list doc_id term_id ps postings counts).0))
        ≡ drop_posting doc_id ps)
      × (count_of (Dict.lookup term_id ((first_list doc_id term_id ps postings counts).1))
          ≡ length (drop_posting doc_id ps))
unfolding Dict.lookup
first_list_here doc_id term_id ps postings counts fresh measured =
    let left = count_of (Dict.lookup term_id counts) - 1 in
    let gone = Dict.lookup-delete term_id term_id counts in
    let less = Dict.lookup-insert term_id term_id left counts in
    let long = length-drop_posting doc_id ps in
    let empty = length_zero (drop_posting doc_id ps) in
    let kept = drop_absent doc_id ps in
    (
      ground (arith, fresh, measured, long, empty, kept),
      ground (arith, measured, gone, less, long, kept),
    )

missed :
    (term_id t : ℕ) (ps : List Posting) (o : Option (List Posting))
    → (if term_id == t then some ps else o) ≡ none
    → ((term_id == t) ≡ false) × (o ≡ none)
missed term_id t ps o h = (ground (arith, h), ground (arith, h))

absent_some : {o : Option (List Posting)} → o ≡ none → is_some o ≡ true → ⊥
absent_some e h = cc

first_Counts :
    (term_id : ℕ) (ps : List Posting) (entries : Dict ℕ (List Posting)) (df : Dict ℕ ℕ)
    → Counts ((term_id, ps) ∷ entries) df
    → count_of (Dict.lookup term_id df) ≡ length ps
unfolding Dict.lookup
first_Counts term_id ps entries df c = ground (arith, c term_id)

absent-remove_postings :
    (doc_id t : ℕ) (entries : Dict ℕ (List Posting)) (df : Dict ℕ ℕ)
    → Dict.lookup t entries ≡ none
    → Dict.lookup t ((remove_postings doc_id entries df).0) ≡ none
unfolding remove_postings Dict.lookup
absent-remove_postings doc_id t [] df h = refl
absent-remove_postings doc_id t ((term_id, ps) ∷ entries) df h =
    let (postings, counts) = remove_postings doc_id entries df in
    let other = missed term_id t ps (Dict.lookup t entries) h in
    (first_list_other doc_id term_id t ps postings counts other.0).0
    ∙ absent-remove_postings doc_id t entries df other.1

tail-Counts :
    (term_id : ℕ) (ps : List Posting) (entries : Dict ℕ (List Posting)) (df : Dict ℕ ℕ)
    → Dict.lookup term_id entries ≡ none
    → Counts ((term_id, ps) ∷ entries) df
    → Counts entries df
unfolding Dict.lookup
tail-Counts term_id ps entries df fresh c t h = elim (Bool-cases (term_id == t)) [
  | inl here ↦ absurd (
      absent_some
        (sym (ap (λ i. Dict.lookup i entries) ((nat_keyed.same_iff term_id t).0 here)) ∙ fresh) h)
  | inr other ↦ ground (arith, other, c t, h)
]

-- The loop leaves every list without the document's posting, and its count is its length.
pub list-remove_postings :
    (doc_id t : ℕ) (entries : Dict ℕ (List Posting)) (df : Dict ℕ ℕ)
    → Dict.IsDistinct entries
    → Counts entries df
    → (list_of (Dict.lookup t ((remove_postings doc_id entries df).0))
        ≡ drop_posting doc_id (list_of (Dict.lookup t entries)))
      × (count_of (Dict.lookup t ((remove_postings doc_id entries df).1)) ≡ (
          if is_some (Dict.lookup t entries)
          then length (drop_posting doc_id (list_of (Dict.lookup t entries)))
          else count_of (Dict.lookup t df)))
unfolding remove_postings Dict.lookup drop_posting
list-remove_postings doc_id t [] df d c = (refl, refl)
list-remove_postings doc_id t ((term_id, ps) ∷ entries) df d c =
    let (postings, counts) = remove_postings doc_id entries df in
    let smaller = tail-Counts term_id ps entries df d.0 c in
    elim (Bool-cases (term_id == t)) [
      | inl here ↦
          let same = (nat_keyed.same_iff term_id t).0 here in
          let those =
            first_list_here doc_id term_id ps postings counts
              (absent-remove_postings doc_id term_id entries df d.0)
              (ground (
                arith,
                (list-remove_postings doc_id term_id entries df d.1 smaller).1,
                d.0,
                first_Counts term_id ps entries df c,
              )) in
          (
            sym (
                  ap
                    (λ i.
                      list_of (Dict.lookup i ((first_list doc_id term_id ps postings counts).0)))
                    same)
                ∙ those.0
                ∙ rw here refl,
            sym (
                  ap
                    (λ i.
                      count_of (Dict.lookup i ((first_list doc_id term_id ps postings counts).1)))
                    same)
                ∙ those.1
                ∙ rw here refl,
          )
      | inr other ↦
          let those = first_list_other doc_id term_id t ps postings counts other in
          let rest = list-remove_postings doc_id t entries df d.1 smaller in
          (
            ap list_of those.0 ∙ rest.0 ∙ rw other refl,
            ap count_of those.1 ∙ rest.1 ∙ rw other refl,
          )
    ]

first-IsDistinct :
    (doc_id term_id : ℕ) (ps : List Posting) (postings : Dict ℕ (List Posting)) (counts : Dict ℕ ℕ)
    → Dict.lookup term_id postings ≡ none
    → Dict.IsDistinct postings
    → Dict.IsDistinct ((first_list doc_id term_id ps postings counts).0)
first-IsDistinct doc_id term_id ps postings counts fresh d = elim (Bool-cases (has_doc doc_id ps)) [
  | inl there ↦ elim (Bool-cases (count_of (Dict.lookup term_id counts) - 1 == 0)) [
    | inl last ↦ rw (there, last) d
    | inr more ↦ rw (there, more) (fresh, d)
  ]
  | inr absent ↦ rw absent (fresh, d)
]

pub remove_postings-IsDistinct :
    (doc_id : ℕ) (entries : Dict ℕ (List Posting)) (df : Dict ℕ ℕ)
    → Dict.IsDistinct entries
    → Dict.IsDistinct ((remove_postings doc_id entries df).0)
unfolding remove_postings
remove_postings-IsDistinct doc_id [] df d = tt
remove_postings-IsDistinct doc_id ((term_id, ps) ∷ entries) df d =
    let (postings, counts) = remove_postings doc_id entries df in
    first-IsDistinct doc_id term_id ps postings counts
      (absent-remove_postings doc_id term_id entries df d.0)
      (remove_postings-IsDistinct doc_id entries df d.1)
