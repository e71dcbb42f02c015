-- ===== src/Layout/Examples.antt =====
-- Tests of the layout of struct fields, and the theorems at concrete inputs.
use go_tools.Common.{
  Name, ℕ, ◌+◌, ◌<◌, if◌then◌else◌, inl, inr, Bool-cases, ◌≡◌, refl, Bool, true, false, Option,
  some, List, [], ◌∷◌, arith, All,
}
use mathlib.Core.List.Permᴰ
use mathlib.Core.List.Permᴰ.{Permᴰ, nil, cons, swap, trans}
use go_tools.Layout.{Field, align_up, less, pad}
use go_tools.Layout.Machine.{sub64, add64, less64, rem64}
use go_tools.Layout.Align.{IsSmall}
use go_tools.Layout.Pad.{HasAlign, at_position, gap_at}
use go_tools.Layout.Whole.{IsPadded, pad-IsPadded}
use go_tools.Layout.Reorder.{
  reorder, reorder-IsPadded, Leaves, leaves_nil, padding_out, field_in, Pairs, IsPlaced,
}
use go_tools.Layout.Combine.{combine, combine_two_parts}

abbrev field_of : ℕ → ℕ → ℕ → Field
field_of c size align = record {
  name = c ∷ [];
  type_name = [];
  start = 0;
  end = 0;
  size = size;
  align = align;
  is_padding = false;
}

-- a bool, an int64 and an int32
abbrev three_fields : List Field
three_fields = field_of 1 1 1 ∷ field_of 2 8 8 ∷ field_of 3 4 4 ∷ []

three_fields-HasAlign : All HasAlign three_fields
three_fields-HasAlign = (omega arith, (omega arith, (omega arith, tt)))

pad_test :
    pad three_fields
    ≡ some (
        at_position 0 (field_of 1 1 1)
        ∷ gap_at 1 7
        ∷ at_position 8 (field_of 2 8 8)
        ∷ at_position 16 (field_of 3 4 4)
        ∷ gap_at 20 4
        ∷ [])
unfolding pad align_up rem64 less64 sub64 add64
pad_test = refl

pad-IsPadded_example :
    (out : List Field) × (pad three_fields ≡ some out) × IsPadded three_fields out
pad-IsPadded_example = pad-IsPadded three_fields three_fields-HasAlign (omega arith)

field_of-IsSmall : (c size align : ℕ) → size < 100 → align < 100 → IsSmall (field_of c size align)
field_of-IsSmall c size align h k = record { size_small = omega arith; align_small = omega arith }

-- the bytes before the second dot of a.b.c
abbrev whole_name : Name → Option Name
whole_name n = some (97 ∷ 46 ∷ 98 ∷ [])

abbrev part : ℕ → ℕ → Field
part start size = record {
  name = 97 ∷ 46 ∷ 98 ∷ 46 ∷ 99 ∷ [];
  type_name = [];
  start = start;
  end = start + size;
  size = size;
  align = 8;
  is_padding = false;
}

combine_two_parts_example :
    (whole : Field) × (combine whole_name (part 0 8 ∷ part 8 8 ∷ []) ≡ some (whole ∷ []))
    × (whole.start ≡ 0)
    × (whole.end ≡ 8)
    × (whole.size ≡ sub64 8 0)
combine_two_parts_example =
    combine_two_parts whole_name (part 0 8) (part 8 8) 97 (46 ∷ 98 ∷ []) refl refl refl refl

-- A sort, by insertion.
abbrev insert : (Field → Field → Bool) → Field → List Field → List Field
insert before x [] = x ∷ []
insert before x (y ∷ ys) =
    let rest = insert before x ys in if before y x then y ∷ rest else x ∷ y ∷ ys

abbrev insertion_sort : (Field → Field → Bool) → List Field → List Field
insertion_sort before [] = []
insertion_sort before (x ∷ xs) = insert before x (insertion_sort before xs)

insert-Perm :
    (before : Field → Field → Bool) (x : Field) (ys : List Field)
    → Permᴰ (insert before x ys) (x ∷ ys)
insert-Perm before x [] = Permᴰ.refl (x ∷ [])
insert-Perm before x (y ∷ ys) = elim (Bool-cases (before y x)) [
  | inl h ↦ rw h (trans (cons refl (insert-Perm before x ys)) (swap refl refl))
  | inr h ↦ rw h (Permᴰ.refl (x ∷ y ∷ ys))
]

insertion_sort-Perm :
    (before : Field → Field → Bool) (xs : List Field) → Permᴰ (insertion_sort before xs) xs
insertion_sort-Perm before [] = nil
insertion_sort-Perm before (x ∷ xs) =
    trans (insert-Perm before x (insertion_sort before xs))
      (cons refl (insertion_sort-Perm before xs))

-- the three fields, with padding behind the first
abbrev read_fields : List Field
read_fields = field_of 1 1 1 ∷ gap_at 1 7 ∷ field_of 2 8 8 ∷ field_of 3 4 4 ∷ []

read_fields-Leaves : Leaves read_fields three_fields
read_fields-Leaves = field_in refl (padding_out refl (field_in refl (field_in refl leaves_nil)))

sorted_fields : Pairs (λ f g. less g f ≡ false) (insertion_sort less three_fields)
unfolding less less64
sorted_fields = ((refl, (refl, tt)), ((refl, tt), (tt, tt)))

reorder-IsPadded_example :
    (order : List Field) × (out : List Field) × Permᴰ order three_fields
    × (reorder insertion_sort whole_name true read_fields ≡ some out)
    × Pairs IsPlaced order
    × IsPadded order out
reorder-IsPadded_example =
    reorder-IsPadded insertion_sort whole_name (field_of 1 1 1)
      (gap_at 1 7 ∷ field_of 2 8 8 ∷ field_of 3 4 4 ∷ []) three_fields read_fields-Leaves
      (insertion_sort-Perm less three_fields) sorted_fields three_fields-HasAlign (omega arith)
