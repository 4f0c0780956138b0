-- ===== src/Bitmap/Tests.antt =====
-- Bitmaps over two numbers in place of float64, and functions in place of bitsets.
use magnitude.Common.{
  ℕ, ◌≡◌, refl, Bool, true, false, not, ◌&&◌, ◌||◌, String, some, [], ◌∷◌, ◌==◌, nat_keyed,
  string_keyed, leb, ltb, if◌then◌else◌, arith,
}
use magnitude.Common.Dict
use magnitude.Common.Dict.{Dict}
use magnitude.Filter.{
  Value, null, num, str, boolean, arr, obj, nil, cons, Filter, filter, no_filters, more, same_bool,
  match_all, match_field, match,
}
use magnitude.Bitmap.{Bitsets, MetadataBitmapIndex, new_index, set, remove}
use magnitude.Bitmap.Query.{all_size, resolve}
use magnitude.Bitmap.Entries.{IsOrder}
use magnitude.Bitmap.Compare.{Prints}
use magnitude.Bitmap.Keys.{NoNul}
use magnitude.Bitmap.Reflects.{
  Reflects, write, erase, new_index-Reflects, set-Reflects, remove-Reflects,
}
use magnitude.Bitmap.Conditions.{IsFit, selects}
use magnitude.Bitmap.Resolve.{resolve-match}
use magnitude.Bitmap.Faults.{beyond, text_range_lost}

abbrev bitsets : Bitsets
bitsets = record {
  BitSet = ℕ → Bool;
  new = λ size i. false;
  test = λ b i. b i;
  set = λ b i j. i == j || b j;
  clear = λ b i j. not (i == j) && b j;
  union = λ a b i. a i || b i;
  intersection = λ a b i. a i && b i;
  difference = λ a b i. a i && not (b i);
  flip_range = λ b lo hi i. if leb lo i && ltb i hi then not (b i) else b i;
  test-new = λ size i. refl;
  test-set = λ b i j. refl;
  test-clear = λ b i j. refl;
  test-union = λ a b i. refl;
  test-intersection = λ a b i. refl;
  test-difference = λ a b i. refl;
  test-flip_range = λ b lo hi i. refl;
}

-- `true` is 2.5 and `false` is 1.
abbrev below : Bool → Bool → Bool
below a b = not a && b

abbrev sprint : Value Bool → String
sprint (str s) = s
sprint (boolean true) = "true"
sprint (boolean false) = "false"
sprint null = "<nil>"
sprint (num true) = "2.5"
sprint (num false) = "1"
sprint (arr vs) = "[]"
sprint (obj fs) = "map[]"

below-IsOrder : IsOrder below
below-IsOrder = record {
  asymmetric = λ a b h. ground (arith, h);
  compares = λ a b c h. ground (arith, h);
}

sprint-Prints : Prints same_bool below sprint
sprint-Prints = record { texts = λ s. refl; answers = refl; numbers = numbers }
  where
    numbers : (a b : Bool) → same_bool a b ≡ (sprint (num a) == sprint (num b))
    numbers true true = refl
    numbers true false = refl
    numbers false true = refl
    numbers false false = refl

abbrev empty : MetadataBitmapIndex Bool (ℕ → Bool)
empty = new_index bitsets same_bool below sprint

abbrev none_written : ℕ → Dict String (Value Bool)
none_written n = []

abbrev heavy : MetadataBitmapIndex Bool (ℕ → Bool)
heavy = set bitsets same_bool below sprint empty "kg" (num true) 0

abbrev heavy_written : ℕ → Dict String (Value Bool)
heavy_written = write bitsets same_bool below sprint 0 "kg" (num true) none_written

abbrev light : MetadataBitmapIndex Bool (ℕ → Bool)
light = set bitsets same_bool below sprint heavy "kg" (num false) 1

abbrev light_written : ℕ → Dict String (Value Bool)
light_written = write bitsets same_bool below sprint 1 "kg" (num false) heavy_written

kg-NoNul : NoNul "kg"
kg-NoNul = (λ h. ground (arith, h), (λ h. ground (arith, h), tt))

heavy-Reflects : Reflects bitsets same_bool below sprint heavy heavy_written
unfolding Dict.lookup
heavy-Reflects =
    set-Reflects bitsets same_bool below sprint empty none_written "kg" (num true) 0 kg-NoNul
      (new_index-Reflects bitsets same_bool below sprint) refl

light-Reflects : Reflects bitsets same_bool below sprint light light_written
unfolding Dict.lookup
light-Reflects =
    set-Reflects bitsets same_bool below sprint heavy heavy_written "kg" (num false) 1 kg-NoNul
      heavy-Reflects refl

set-Reflects_example :
    Reflects bitsets same_bool below sprint
      (set bitsets same_bool below sprint light "kg" (str "heavy") 7)
      (write bitsets same_bool below sprint 7 "kg" (str "heavy") light_written)
unfolding Dict.lookup
set-Reflects_example =
    set-Reflects bitsets same_bool below sprint light light_written "kg" (str "heavy") 7 kg-NoNul
      light-Reflects refl

same_bool_refl : (x : Bool) → same_bool x x ≡ true
same_bool_refl true = refl
same_bool_refl false = refl

remove-Reflects_example :
    Reflects bitsets same_bool below sprint
      (remove bitsets same_bool below sprint light "kg" (num true) 0)
      (erase bitsets same_bool below sprint 0 "kg" light_written)
unfolding Dict.lookup Dict.insert
remove-Reflects_example =
    remove-Reflects bitsets same_bool below sprint light light_written "kg" (num true) 0
      same_bool_refl kg-NoNul light-Reflects refl

-- `{"kg": {"$gte": 2.5}, "$or": [{"kg": {"$in": [1, 2.5]}}, {"name": "ox"}]}`
abbrev wanted : Filter Bool
wanted = filter ((record { name = "kg"; operator = "$gte"; value = num true; values = nil }) ∷ []) (
    more
      (filter
        ((record {
          name = "kg";
          operator = "$in";
          value = null;
          values = cons (num false) (cons (num true) nil);
        })
          ∷ [])
        no_filters)
      (more
        (filter ((record { name = "ox"; operator = "$eq"; value = str "ox"; values = nil }) ∷ [])
          no_filters)
        no_filters))

wanted-IsFit : IsFit (light_written 0) wanted
unfolding IsFit Dict.lookup Dict.insert
wanted-IsFit = (
  ((kg-NoNul, refl), tt),
  ((
    (refl, (((kg-NoNul, refl), tt), tt)),
    ((refl, ((((λ h. ground (arith, h), (λ h. ground (arith, h), tt)), refl), tt), tt)), tt),
  )),
)

resolve-match_example :
    selects bitsets same_bool below sprint
      ((resolve bitsets same_bool below sprint light (some wanted)).1)
      0
    ≡ match same_bool below sprint wanted (light_written 0)
unfolding all_size set new_index
resolve-match_example =
    resolve-match bitsets same_bool below sprint light light_written 0 wanted below-IsOrder
      sprint-Prints light-Reflects refl wanted-IsFit

found_by_bitmap : match same_bool below sprint wanted (light_written 0) ≡ true
unfolding match match_all match_field Dict.lookup Dict.insert
found_by_bitmap = refl

text_range_lost_example :
    (match same_bool below sprint
        (filter (beyond "name" "cow" ∷ []) no_filters)
        (("name", str "ox") ∷ [])
      ≡ true)
    × (selects bitsets same_bool below sprint
          ((resolve bitsets same_bool below sprint empty
            (some (filter (beyond "name" "cow" ∷ []) no_filters))).1)
          0
        ≡ false)
unfolding Dict.lookup
text_range_lost_example =
    text_range_lost bitsets same_bool below sprint empty 0 (("name", str "ox") ∷ []) "name" "ox"
      "cow" refl refl
