-- ===== src/Layout.antt =====
-- The layout of struct fields: cmd/structlayout-optimize/main.go, on the fields of structlayout.
-- The outer `none` of a result is a panic.
pub mod Machine
pub mod Align
pub mod Pad
pub mod Whole
pub mod Combine
pub mod Reorder
mod Examples
use go_tools.Common.{
  ℕ, zero, suc, Bool, true, false, not, ◌&&◌, Option, none, some, List, [], ◌∷◌, ◌++◌,
  if◌then◌else◌, ◌==◌, ◌>>=◌,
}
use go_tools.Layout.Machine.{Int64, add64, sub64, less64, rem64}

-- `structlayout.Field`
pub record Field : Type 0 where
  pub name : List ℕ
  pub type_name : List ℕ
  pub start : Int64
  pub end : Int64
  pub size : Int64
  pub align : Int64
  pub is_padding : Bool

-- `y := x + a - 1; return y - y%a`
unfoldable pub align_up : Int64 → Int64 → Option Int64
align_up x a = let y = sub64 (add64 x a) 1 in do r ← rem64 y a; some (sub64 y r)

-- The loop of `offsetsof`, from the offset `o`.
unfoldable pub offsets_from : Int64 → List Field → Option (List Int64)
offsets_from o [] = some []
offsets_from o (f ∷ fields) = do
  at ← align_up o f.align
  rest ← offsets_from (add64 at f.size) fields
  some (at ∷ rest)

unfoldable pub offsetsof : List Field → Option (List Int64)
unfolding offsets_from
offsetsof fields = offsets_from 0 fields

-- The loop of `size`, from the sum `n`.
unfoldable pub size_from : Int64 → List Field → Int64
size_from n [] = n
size_from n (f ∷ fields) = size_from (add64 n f.size) fields

-- `st.Field{IsPadding: true, Start: pos, End: pos + padding, Size: padding}`
abbrev pub padding_field : Int64 → Int64 → Field
padding_field pos padding = record {
  name = [];
  type_name = [];
  start = pos;
  end = add64 pos padding;
  size = padding;
  align = 0;
  is_padding = true;
}

-- `field.Start = pos; field.End = pos + field.Size`
abbrev pub placed : Int64 → Field → Field
placed pos f = record {
  name = f.name;
  type_name = f.type_name;
  start = pos;
  end = add64 pos f.size;
  size = f.size;
  align = f.align;
  is_padding = f.is_padding;
}

-- `if offsets[i] > pos { ... }`: the padding, if any, and the position after it.
unfoldable pub gap_before : Int64 → Int64 → List Field × Int64
gap_before pos offset =
    if less64 pos offset
    then (let padding = sub64 offset pos in (padding_field pos padding ∷ [], add64 pos padding))
    else ([], pos)

-- The loop of `pad`: the fields that it appends, and the greatest alignment.
unfoldable pub pad_loop : List Field → List Int64 → Int64 → Int64 → Option (List Field × Int64)
unfolding gap_before
pad_loop [] offsets pos alignment = some ([], alignment)
pad_loop (f ∷ fields) [] pos alignment = none
pad_loop (f ∷ fields) (offset ∷ offsets) pos alignment =
    let (gap, at) = gap_before pos offset in
    do
      (rest, greatest) ←
          pad_loop fields offsets (add64 at f.size)
            (if less64 alignment f.align then f.align else alignment)
      some (gap ++ (placed at f ∷ rest), greatest)

-- `out[len(out)-1]`
abbrev pub last_from : Option Field → List Field → Option Field
last_from m [] = m
last_from m (f ∷ fields) = last_from (some f) fields

-- The end of `pad`: the padding behind the last field.
unfoldable pub pad_end : List Field → Int64 → Option (List Field)
unfolding size_from
pad_end out alignment =
    let sz = size_from 0 out in
    do
      aligned ← align_up sz alignment
      let pad = sub64 aligned sz
      if less64 0 pad
          then (do field ← last_from none out; some (out ++ (padding_field field.end pad ∷ [])))
          else some out

unfoldable pub pad : List Field → Option (List Field)
unfolding offsetsof pad_loop pad_end
pad [] = some []
pad (f ∷ fields) = do
  offsets ← offsetsof (f ∷ fields)
  (out, alignment) ← pad_loop (f ∷ fields) offsets 0 1
  pad_end out alignment

-- `byAlignAndSize.Less`
unfoldable pub less : Field → Field → Bool
less a b =
    if (a.size == 0) && not (b.size == 0)
    then true
    else if (b.size == 0) && not (a.size == 0)
    then false
    else if not (a.align == b.align)
    then less64 b.align a.align
    else if not (a.size == b.size)
    then less64 b.size a.size
    else false
