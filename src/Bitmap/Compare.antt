-- ===== src/Bitmap/Compare.antt =====
-- Conditions that a bitmap can decide, and the equality of values against that of their texts.
use magnitude.Common.{
  ◌≡◌, refl, sym, Bool, true, false, not, ◌&&◌, ◌||◌, String, Option, none, some, ◌==◌, nat_keyed,
  string_keyed, if◌then◌else◌, arith, same_refl,
}
use text.Mathlib.TextEquality.{eq_iff}
use magnitude.Filter.{Value, null, num, str, boolean, arr, obj, FieldFilter, compare_equal}

abbrev pub is_range : String → Bool
is_range operator =
    not (operator == "$eq" || (operator == "$ne" || (operator == "$in" || operator == "$nin")))

module _ {F : Type 0} where
  abbrev pub is_number : Value F → Bool
  is_number (num x) = true
  is_number v = false

  abbrev pub number_if_any : Option (Value F) → Bool
  number_if_any none = true
  number_if_any (some v) = is_number v

  -- A condition that a bitmap can decide: a range compares two numbers, if the field is there.
  abbrev pub is_comparable : FieldFilter F → Option (Value F) → Bool
  is_comparable ff o = if is_range ff.operator then is_number ff.value && number_if_any o else true

  abbrev pub passes : (F → Bool) → Option (Value F) → Bool
  passes p (some (num x)) = p x
  passes p o = false

module _ {F : Type 0} (feq flt : F → F → Bool) (sprint : Value F → String) where
  -- The `%v` of two values is the same if and only if they are equal.
  pub record Prints : Type 0 where
    pub texts : (s : String) → sprint (str s) ≡ s
    pub answers : (sprint (boolean true) == sprint (boolean false)) ≡ false
    pub numbers : (a b : F) → feq a b ≡ (sprint (num a) == sprint (num b))

  pub compare_equal_lem :
      Prints → (w v : Value F) → compare_equal feq flt sprint w v ≡ (sprint w == sprint v)
  unfolding compare_equal
  compare_equal_lem prints null v = refl
  compare_equal_lem prints (arr vs) v = refl
  compare_equal_lem prints (obj fs) v = refl
  compare_equal_lem prints (num a) null = refl
  compare_equal_lem prints (num a) (num b) = prints.numbers a b
  compare_equal_lem prints (num a) (str b) = refl
  compare_equal_lem prints (num a) (boolean b) = refl
  compare_equal_lem prints (num a) (arr b) = refl
  compare_equal_lem prints (num a) (obj b) = refl
  compare_equal_lem prints (str a) null = refl
  compare_equal_lem prints (str a) (num b) = refl
  compare_equal_lem prints (str a) (str b) = rw (prints.texts a, prints.texts b) refl
  compare_equal_lem prints (str a) (boolean b) = refl
  compare_equal_lem prints (str a) (arr b) = refl
  compare_equal_lem prints (str a) (obj b) = refl
  compare_equal_lem prints (boolean a) null = refl
  compare_equal_lem prints (boolean a) (num b) = refl
  compare_equal_lem prints (boolean a) (str b) = refl
  compare_equal_lem prints (boolean true) (boolean true) = sym (same_refl (sprint (boolean true)))
  compare_equal_lem prints (boolean true) (boolean false) = sym prints.answers
  compare_equal_lem prints (boolean false) (boolean true) = ground (
    arith,
    prints.answers,
    eq_iff (sprint (boolean true)) (sprint (boolean false)),
    eq_iff (sprint (boolean false)) (sprint (boolean true)),
  )
  compare_equal_lem prints (boolean false) (boolean false) =
      sym (same_refl (sprint (boolean false)))
  compare_equal_lem prints (boolean a) (arr b) = refl
  compare_equal_lem prints (boolean a) (obj b) = refl
