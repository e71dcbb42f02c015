-- ===== src/Layout/Pad.antt =====
-- The offsets and the padding of cmd/structlayout-optimize/main.go: `offsetsof` and the loop of `pad`.
use go_tools.Common.{
  ℕ, ◌+◌, ◌-◌, ◌*◌, ◌≤◌, ◌<◌, ◌≡◌, refl, sym, ◌∙◌, subst, true, some, List, [], ◌∷◌, ◌++◌, arith,
  if◌then◌else◌, ltb, ◌⊎◌, inl, inr, All,
}
use go_tools.Layout.{Field, align_up, offsets_from, gap_before, pad_loop, placed}
use go_tools.Layout.Machine.{Int64, add64_small, sub64_small, less64_small}
use go_tools.Layout.Align.{IsAligned, align_up-IsAligned}

-- A field at a position, and padding there, in numbers of ℕ.
abbrev pub at_position : ℕ → Field → Field
at_position pos f = record {
  name = f.name;
  type_name = f.type_name;
  start = pos;
  end = pos + f.size;
  size = f.size;
  align = f.align;
  is_padding = f.is_padding;
}

abbrev pub gap_at : ℕ → ℕ → Field
gap_at pos n = record {
  name = [];
  type_name = [];
  start = pos;
  end = pos + n;
  size = n;
  align = 0;
  is_padding = true;
}

-- `IsLayout pos fields out e`: `out` places the fields in order from `pos` to `e`, without a hole, each
-- at a multiple of its alignment, behind padding that is smaller than the alignment where it needs any.
pub data IsLayout : ℕ → List Field → List Field → ℕ → Type 0 where
  done : {pos : ℕ} → IsLayout pos [] [] pos
  next :
      {pos e : ℕ} {f : Field} {fields out : List Field}
      → (k : ℕ) → pos ≡ k * f.align
      → IsLayout (pos + f.size) fields out e
      → IsLayout pos (f ∷ fields) (at_position pos f ∷ out) e
  padded :
      {pos e : ℕ} {f : Field} {fields out : List Field}
      → (n k : ℕ) → 0 < n
      → n < f.align
      → pos + n ≡ k * f.align
      → IsLayout (pos + n + f.size) fields out e
      → IsLayout pos (f ∷ fields) (gap_at pos n ∷ at_position (pos + n) f ∷ out) e

-- What the layout of the fields takes at most.
abbrev pub weight : List Field → ℕ
weight [] = 0
weight (f ∷ fields) = f.size + f.align + weight fields

abbrev pub greatest : ℕ → List Field → ℕ
greatest a [] = a
greatest a (f ∷ fields) = greatest (if ltb a f.align then f.align else a) fields

abbrev pub HasAlign : Field → Type 0
HasAlign f = 0 < f.align

placed_small :
    (pos : ℕ) (f : Field) → pos + f.size < 9223372036854775808 → placed pos f ≡ at_position pos f
placed_small pos f h = rw (add64_small pos f.size h) refl

gap_before_none : (pos : ℕ) → pos < 9223372036854775808 → gap_before pos pos ≡ ([], pos)
unfolding gap_before
gap_before_none pos h = ground (arith, less64_small pos pos h h)

gap_before_some :
    (pos n : ℕ)
    → 0 < n
    → pos + n < 9223372036854775808
    → gap_before pos (pos + n) ≡ (gap_at pos n ∷ [], pos + n)
unfolding gap_before
gap_before_some pos n p h =
    rw
      (
        less64_small pos (pos + n) (omega arith) h,
        sub64_small (pos + n) pos (omega arith) h,
        less,
        cancel,
        add64_small pos n h,
      )
      refl
  where
    less : ltb pos (pos + n) ≡ true
    less = ground arith

    cancel : pos + n - pos ≡ n
    cancel = omega arith

-- The offsets of the fields from `pos`, and the loop of `pad` over them.
pub record Padded (fields : List Field) (pos a : ℕ) : Type 0 where
  pub offsets : List Int64
  pub found : offsets_from pos fields ≡ some offsets
  pub out : List Field
  pub answer : pad_loop fields offsets pos a ≡ some (out, greatest a fields)
  pub e : ℕ
  pub layout : IsLayout pos fields out e
  pub bound : e ≤ pos + weight fields

module _ (f : Field) (fields : List Field) (pos a y : ℕ) (al : IsAligned pos f.align y)
    (found : align_up pos f.align ≡ some y)
    (small : pos + weight (f ∷ fields) < 9223372036854775808) (small_a : a < 9223372036854775808)
    (rest : Padded fields (y + f.size) (if ltb a f.align then f.align else a)) where
  step_offsets : offsets_from pos (f ∷ fields) ≡ some (y ∷ rest.offsets)
  unfolding offsets_from
  step_offsets = rw (found, add64_small y f.size (omega (arith, al.close)), rest.found) refl

  step_answer :
      (gap : List Field)
      → gap_before pos y ≡ (gap, y)
      → pad_loop (f ∷ fields) (y ∷ rest.offsets) pos a
        ≡ some (gap ++ (at_position y f ∷ rest.out), greatest a (f ∷ fields))
  unfolding pad_loop
  step_answer gap g =
      rw
        (
          g,
          less64_small a f.align small_a (omega arith),
          placed_small y f (omega (arith, al.close)),
          add64_small y f.size (omega (arith, al.close)),
          rest.answer,
        )
        refl

  step_gap : (n : ℕ) → 0 < n → pos + n ≡ y → Padded (f ∷ fields) pos a
  step_gap n p h = record {
    offsets = y ∷ rest.offsets;
    found = step_offsets;
    out = gap_at pos n ∷ at_position y f ∷ rest.out;
    answer = step_answer (gap_at pos n ∷ []) (
        subst (λ z. gap_before pos z ≡ (gap_at pos n ∷ [], z)) h
          (gap_before_some pos n p (omega (arith, al.close))));
    e = rest.e;
    layout =
        subst (λ z. IsLayout pos (f ∷ fields) (gap_at pos n ∷ at_position z f ∷ rest.out) rest.e) h
          (padded n al.factor p (omega (arith, al.close)) (h ∙ al.multiple)
            (subst (λ z. IsLayout (z + f.size) fields rest.out rest.e) (sym h) rest.layout));
    bound = omega (arith, al.close, rest.bound);
  }

  step_plain : pos ≡ y → Padded (f ∷ fields) pos a
  step_plain h = record {
    offsets = y ∷ rest.offsets;
    found = step_offsets;
    out = at_position y f ∷ rest.out;
    answer = step_answer [] (
        subst (λ z. gap_before z y ≡ ([], y)) (sym h)
          (gap_before_none y (omega (arith, al.close))));
    e = rest.e;
    layout =
        subst (λ z. IsLayout z (f ∷ fields) (at_position y f ∷ rest.out) rest.e) (sym h)
          (next al.factor al.multiple rest.layout);
    bound = omega (arith, al.close, rest.bound);
  }

  step : (pos ≡ y) ⊎ (pos < y) → Padded (f ∷ fields) pos a
  step (inl h) = step_plain h
  step (inr h) = step_gap (y - pos) (omega arith) (omega arith)

-- From a position `pos` and an alignment `a`, `offsetsof` and the loop of `pad` do not panic on fields
-- with alignments that are not 0, all of which ends below 2 ^ 63: the fields are placed in order, each
-- at a multiple of its alignment, and the loop finds the greatest alignment.
pub pad_loop-Padded :
    (fields : List Field) (pos a : ℕ)
    → All HasAlign fields
    → pos + weight fields < 9223372036854775808
    → a < 9223372036854775808
    → Padded fields pos a
unfolding offsets_from pad_loop
pad_loop-Padded [] pos a p h k = record {
  offsets = [];
  found = refl;
  out = [];
  answer = refl;
  e = pos;
  layout = done;
  bound = omega arith;
}
pad_loop-Padded (f ∷ fields) pos a (p, ps) h k =
    let (y, found, al) = align_up-IsAligned pos f.align p (omega arith) in
    step f fields pos a y al found h k
      (pad_loop-Padded fields (y + f.size) (if ltb a f.align then f.align else a) ps
        (omega (arith, al.close)) (ground arith))
      (at_or_before pos y al.above)
  where
    at_or_before : (m n : ℕ) → m ≤ n → (m ≡ n) ⊎ (m < n)
    at_or_before m n q = ground arith
