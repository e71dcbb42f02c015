-- ===== src/Layout/Whole.antt =====
-- `pad` of cmd/structlayout-optimize/main.go as a whole.
use go_tools.Common.{
  ℕ, ◌+◌, ◌-◌, ◌*◌, ◌≤◌, ◌<◌, ◌≡◌, refl, sym, true, none, some, List, [], ◌∷◌, ◌++◌, arith,
  if◌then◌else◌, ltb, ◌⊎◌, inl, inr, All,
}
use go_tools.Layout.{Field, align_up, offsetsof, size_from, last_from, pad_end, pad}
use go_tools.Layout.Machine.{add64_small, sub64_small, less64_small}
use go_tools.Layout.Align.{IsAligned, align_up-IsAligned}
use go_tools.Layout.Pad.{
  IsLayout, done, next, padded, weight, greatest, HasAlign, gap_at, at_position, pad_loop-Padded,
}

IsLayout-le : {pos e : ℕ} {fields out : List Field} → IsLayout pos fields out e → pos ≤ e
IsLayout-le done = omega arith
IsLayout-le (next {f = f} k h l) = omega (arith, IsLayout-le l)
IsLayout-le (padded {f = f} n k p q h l) = omega (arith, IsLayout-le l)

-- The sizes of a layout sum up to where it ends.
size_from-IsLayout :
    {pos e : ℕ} {fields out : List Field}
    → IsLayout pos fields out e
    → e < 9223372036854775808
    → size_from pos out ≡ e
unfolding size_from
size_from-IsLayout done h = refl
size_from-IsLayout (next {pos = pos} {f = f} k m l) h =
    rw (add64_small pos f.size (omega (arith, IsLayout-le l))) (size_from-IsLayout l h)
size_from-IsLayout (padded {pos = pos} {f = f} n k p q m l) h =
    rw
      (
        add64_small pos n (omega (arith, IsLayout-le l)),
        add64_small (pos + n) f.size (omega (arith, IsLayout-le l)),
      )
      (size_from-IsLayout l h)

-- Its last field ends there.
last_from-IsLayout :
    {pos e : ℕ} {fields out : List Field} (g : Field)
    → g.end ≡ pos
    → IsLayout pos fields out e
    → (last : Field) × (last_from (some g) out ≡ some last) × (last.end ≡ e)
last_from-IsLayout g h done = (g, refl, h)
last_from-IsLayout g h (next {pos = pos} {f = f} k m l) =
    last_from-IsLayout (at_position pos f) refl l
last_from-IsLayout g h (padded {pos = pos} {f = f} n k p q m l) =
    last_from-IsLayout (at_position (pos + n) f) refl l

last_from-IsLayout_start :
    {pos e : ℕ} {f : Field} {fields out : List Field}
    → IsLayout pos (f ∷ fields) out e
    → (last : Field) × (last_from none out ≡ some last) × (last.end ≡ e)
last_from-IsLayout_start (next {pos = pos} {f = f} k m l) =
    last_from-IsLayout (at_position pos f) refl l
last_from-IsLayout_start (padded {pos = pos} {f = f} n k p q m l) =
    last_from-IsLayout (at_position (pos + n) f) refl l

greatest-above : (a : ℕ) (fields : List Field) → a ≤ greatest a fields
greatest-above a [] = omega arith
greatest-above a (f ∷ fields) =
    ground (arith, greatest-above (if ltb a f.align then f.align else a) fields)

-- What `pad` answers: a layout from 0 on, with padding behind it only if it does not end at a multiple
-- of the greatest alignment, and then up to the next one.
pub record IsPadded (fields out : List Field) : Type 0 where
  pub body : List Field
  pub e : ℕ
  pub layout : IsLayout 0 fields body e
  pub total : ℕ
  pub factor : ℕ
  pub multiple : total ≡ factor * greatest 1 fields
  pub ending :
      ((total ≡ e) × (out ≡ body))
      ⊎ ((n : ℕ) × (0 < n)
          × (n < greatest 1 fields)
          × (e + n ≡ total)
          × (out ≡ body ++ (gap_at e n ∷ [])))

module _ (f : Field) (fields body : List Field) (e y a : ℕ)
    (layout : IsLayout 0 (f ∷ fields) body e) (al : IsAligned e a y) (found : align_up e a ≡ some y)
    (small : e + a < 9223372036854775808) where
  size_body : size_from 0 body ≡ e
  size_body = size_from-IsLayout layout (omega arith)

  ends_plain : e ≡ y → pad_end body a ≡ some body
  unfolding pad_end
  ends_plain h =
      rw
        (
          size_body,
          found,
          ← h,
          sub64_small e e (omega arith) (omega arith),
          cancel,
          less64_small 0 0 (omega arith) (omega arith),
        )
        refl
    where
      cancel : e - e ≡ 0
      cancel = omega arith

  ends_gap : (n : ℕ) → 0 < n → e + n ≡ y → pad_end body a ≡ some (body ++ (gap_at e n ∷ []))
  unfolding pad_end
  ends_gap n p h =
      let (last, l, le) = last_from-IsLayout_start layout in
      rw
        (
          size_body,
          found,
          sub64_small y e (omega arith) (omega (arith, al.close)),
          cancel,
          less64_small 0 n (omega arith) (omega (arith, al.close)),
          positive,
          l,
          le,
          add64_small e n (omega (arith, al.close)),
        )
        refl
    where
      cancel : y - e ≡ n
      cancel = omega arith

      positive : ltb 0 n ≡ true
      positive = ground arith

  ends :
      (greatest 1 (f ∷ fields) ≡ a)
      → (e ≡ y) ⊎ (e < y)
      → (out : List Field) × (pad_end body a ≡ some out) × IsPadded (f ∷ fields) out
  ends g (inl h) = (
    body,
    ends_plain h,
    record {
      body = body;
      e = e;
      layout = layout;
      total = y;
      factor = al.factor;
      multiple = rw g al.multiple;
      ending = inl (sym h, refl);
    },
  )
  ends g (inr h) =
      let n = y - e in
      (
        body ++ (gap_at e n ∷ []),
        ends_gap n (omega arith) (omega arith),
        record {
          body = body;
          e = e;
          layout = layout;
          total = y;
          factor = al.factor;
          multiple = rw g al.multiple;
          ending = inr (n, omega arith, rw g (omega (arith, al.close)), omega arith, refl);
        },
      )

-- For fields whose alignments are not 0, and whose sizes and alignments together with the greatest
-- alignment are below 2 ^ 63, `pad` does not panic; it places the fields in order from 0 on, without a
-- hole, each at a multiple of its alignment behind padding smaller than that, and ends at a multiple
-- of the greatest alignment, with padding smaller than that behind the last field.
pub pad-IsPadded :
    (fields : List Field)
    → All HasAlign fields
    → weight fields + greatest 1 fields < 9223372036854775808
    → (out : List Field) × (pad fields ≡ some out) × IsPadded fields out
unfolding pad offsetsof
pad-IsPadded [] p h = (
  [],
  refl,
  record {
    body = [];
    e = 0;
    layout = done;
    total = 0;
    factor = 0;
    multiple = refl;
    ending = inl (refl, refl);
  },
)
pad-IsPadded (f ∷ fields) p h =
    let r = pad_loop-Padded (f ∷ fields) 0 1 p (omega arith) (omega arith) in
    let (y, found, al) =
      align_up-IsAligned r.e (greatest 1 (f ∷ fields))
        (omega (arith, greatest-above 1 (f ∷ fields))) (omega (arith, r.bound)) in
    rw (r.found, r.answer)
      (ends f fields r.out r.e y (greatest 1 (f ∷ fields)) r.layout al found
        (omega (arith, r.bound)) refl (at_or_before r.e y al.above))
  where
    at_or_before : (m n : ℕ) → m ≤ n → (m ≡ n) ⊎ (m < n)
    at_or_before m n q = ground arith
