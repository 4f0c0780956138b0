-- ===== src/Bitmap/Keys.antt =====
-- The keys of the bitmaps: a field without a NUL and a value are read back from their key.
use Prim.Native.Char.{code, nul}
use Prim.Native.String.{◌++◌ as text_append}
use magnitude.Common.{
  ◌≡◌, ◌≢◌, refl, sym, ap, ◌∙◌, ◌&&◌, String, ◌==◌, string_keyed, arith, Bool-cases, inl, inr,
}
use magnitude.Filter.{Value}
use magnitude.Bitmap.{composite_key}
use text.Mathlib.TextEquality.{eq_iff}
use text.Mathlib.TextLemmas.{
  head-eq_of_cons-eq, tail-eq_of_cons-eq, append_cancel_left, nil-append, cons-append,
}

abbrev pub NoNul : String → Type 0
NoNul String.[] = Unit
NoNul (String.◌∷◌ c s) = (code c ≢ 0) × NoNul s

split_key :
    (s t a b : String)
    → NoNul s
    → NoNul t
    → text_append s (text_append "\0" a) ≡ text_append t (text_append "\0" b)
    → (s ≡ t) × (a ≡ b)
split_key String.[] String.[] a b u v e = (
  refl,
  append_cancel_left "\0" a b
      (sym (nil-append (text_append "\0" a)) ∙ e ∙ nil-append (text_append "\0" b)),
)
split_key String.[] (String.◌∷◌ d t) a b u v e = absurd (
    v.0 (
      sym (
        ap code (
          head-eq_of_cons-eq (
            sym (cons-append nul String.[] a)
            ∙ sym (nil-append (text_append "\0" a))
            ∙ e
            ∙ cons-append d t (text_append "\0" b))))))
split_key (String.◌∷◌ c s) String.[] a b u v e = absurd (
    u.0 (
      ap code (
        head-eq_of_cons-eq (
          sym (cons-append c s (text_append "\0" a))
          ∙ e
          ∙ nil-append (text_append "\0" b)
          ∙ cons-append nul String.[] b))))
split_key (String.◌∷◌ c s) (String.◌∷◌ d t) a b u v e =
    let e' =
      sym (cons-append c s (text_append "\0" a)) ∙ e ∙ cons-append d t (text_append "\0" b) in
    let (same, rest) = split_key s t a b u.1 v.1 (tail-eq_of_cons-eq e') in
    (cc (head-eq_of_cons-eq e', same), rest)

module _ {F : Type 0} (sprint : Value F → String) where
  joined :
      (f g : String) (v w : Value F)
      → f ≡ g
      → sprint v ≡ sprint w
      → composite_key sprint f v ≡ composite_key sprint g w
  unfolding composite_key
  joined f g v w e d = cc

  pub composite_key_lem :
      (f g : String) (v w : Value F)
      → NoNul f
      → NoNul g
      → (composite_key sprint f v == composite_key sprint g w) ≡ (f == g && (sprint v == sprint w))
  unfolding composite_key
  composite_key_lem f g v w p q =
      let k = composite_key sprint f v in
      let j = composite_key sprint g w in
      elim (Bool-cases (k == j)) [
        | inl same ↦
            let (names, texts) = split_key f g (sprint v) (sprint w) p q ((eq_iff k j).0 same) in
            ground (arith, same, names, texts, eq_iff f g, eq_iff (sprint v) (sprint w))
        | inr differ ↦ elim (Bool-cases (f == g && (sprint v == sprint w))) [
          | inr none_same ↦ differ ∙ sym none_same
          | inl both ↦ absurd (
              ground (
                arith,
                differ,
                both,
                eq_iff f g,
                eq_iff (sprint v) (sprint w),
                eq_iff k j,
                joined f g v w,
              ))
        ]
      ]
