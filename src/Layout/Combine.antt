-- ===== src/Layout/Combine.antt =====
-- `combine` of cmd/structlayout-optimize/main.go, which joins the parts of the fields of a struct.
use go_tools.Common.{
  Name, names_equal, ℕ, ◌≡◌, refl, Bool, true, false, not, Option, some, List, [], ◌∷◌, ◌++◌,
  if◌then◌else◌, ==_iff, ◌>>=◌,
}
use go_tools.Layout.{Field}
use go_tools.Layout.Machine.{sub64, less64}

abbrev is_empty : Name → Bool
is_empty [] = true
is_empty _ = false

-- The bytes of "struct".
abbrev pub struct_name : Name
struct_name = 115 ∷ 116 ∷ 114 ∷ 117 ∷ 99 ∷ 116 ∷ []

-- The variables of the loop; the output is what the steps append.
pub record Combining : Type 0 where
  pub new : Field
  pub cur : Name
  pub was_pad : Bool

-- `st.Field{}`
abbrev pub no_field : Field
no_field = record {
  name = [];
  type_name = [];
  start = 0;
  end = 0;
  size = 0;
  align = 0;
  is_padding = false;
}

-- `if field.Align > new.Align { ... }` and `if !wasPad { ... }`
abbrev pub grown : Combining → Field → Field
grown s field = record {
  name = s.new.name;
  type_name = s.new.type_name;
  start = s.new.start;
  end = if not s.was_pad then field.start else s.new.end;
  size = if not s.was_pad then sub64 field.start s.new.start else s.new.size;
  align = if less64 s.new.align field.align then field.align else s.new.align;
  is_padding = s.new.is_padding;
}

abbrev pub with_name : Name → Field → Field
with_name n f = record {
  name = n;
  type_name = f.type_name;
  start = f.start;
  end = f.end;
  size = f.size;
  align = f.align;
  is_padding = f.is_padding;
}

abbrev pub with_type : Name → Field → Field
with_type n f = record {
  name = f.name;
  type_name = n;
  start = f.start;
  end = f.end;
  size = f.size;
  align = f.align;
  is_padding = f.is_padding;
}

-- `new.Size = new.End - new.Start`
abbrev pub with_extent : Field → Field
with_extent f = record {
  name = f.name;
  type_name = f.type_name;
  start = f.start;
  end = f.end;
  size = sub64 f.end f.start;
  align = f.align;
  is_padding = f.is_padding;
}

-- `strings.Join(strings.Split(field.Name, ".")[:2], ".")` is a parameter, as the package strings is;
-- `none` is the panic for a name without a dot.
module _ (prefix_of : Name → Option Name) where
  -- A round of the loop: what it appends, and the variables after it.
  unfoldable pub combine_step : Combining → Field → Option (List Field × Combining)
  combine_step s field =
      if field.is_padding
      then some ([], record { new = s.new; cur = s.cur; was_pad = true })
      else do
        prefix ← prefix_of field.name
        if not (names_equal prefix s.cur)
            then some (
              (if is_empty s.cur then [] else grown s field ∷ []),
              record { new = with_name prefix field; cur = prefix; was_pad = false },
            )
            else some (
              [],
              record { new = with_type struct_name (grown s field); cur = s.cur; was_pad = false },
            )

  unfoldable pub combine_loop : Combining → List Field → Option (List Field)
  unfolding combine_step
  combine_loop s [] = some (with_extent s.new ∷ [])
  combine_loop s (field ∷ fields) = do
    (out, s') ← combine_step s field
    rest ← combine_loop s' fields
    some (out ++ rest)

  unfoldable pub combine : List Field → Option (List Field)
  unfolding combine_loop
  combine fields = combine_loop (record { new = no_field; cur = []; was_pad = true }) fields

names_equal_self : (n : Name) → names_equal n n ≡ true
names_equal_self [] = refl
names_equal_self (a ∷ n) = rw ((==_iff a a).1 refl, names_equal_self n) refl

-- Of a struct of two parts `f` and `g`, the second of which nothing follows, `combine` makes one field
-- that ends where `g` starts: the size of `g` is lost.
pub combine_two_parts :
    (prefix_of : Name → Option Name) (f g : Field) (c : ℕ) (prefix : Name)
    → f.is_padding ≡ false
    → g.is_padding ≡ false
    → prefix_of f.name ≡ some (c ∷ prefix)
    → prefix_of g.name ≡ some (c ∷ prefix)
    → (whole : Field) × (combine prefix_of (f ∷ g ∷ []) ≡ some (whole ∷ []))
      × (whole.start ≡ f.start)
      × (whole.end ≡ g.start)
      × (whole.size ≡ sub64 g.start f.start)
unfolding combine
combine_two_parts prefix_of f g c prefix pf pg ef eg = (
  with_extent (
      with_type struct_name
        (grown (record { new = with_name (c ∷ prefix) f; cur = c ∷ prefix; was_pad = false }) g)),
  rw (pf, ef, pg, eg, names_equal_self (c ∷ prefix)) refl,
  refl,
  refl,
  refl,
)
