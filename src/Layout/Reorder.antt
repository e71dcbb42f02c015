-- ===== src/Layout/Reorder.antt =====
-- What `main` of cmd/structlayout-optimize/main.go does with the fields between reading and printing.
use go_tools.Common.{
  Name, ℕ, ◌+◌, ◌*◌, ◌<◌, ◌≤◌, ◌≡◌, refl, sym, ◌∙◌, ap, subst, Bool, true, not, Option, some, List,
  [], ◌∷◌, if◌then◌else◌, ◌>>=◌, arith, All, ltb, false, ◌⊎◌, inl, inr, ◌==◌, ==_iff, Bool-cases,
}
use mathlib.Core.List.Permᴰ.{Permᴰ, nil, cons, swap, trans}
use go_tools.Layout.{Field, pad, less}
use go_tools.Layout.Align.{IsSmall, less-eq}
use go_tools.Layout.Pad.{weight, greatest, HasAlign}
use go_tools.Layout.Whole.{IsPadded, pad-IsPadded}
use go_tools.Layout.Combine.{combine}

-- The loop that leaves out the padding.
unfoldable pub without_padding : List Field → List Field
without_padding [] = []
without_padding (f ∷ fields) =
    let rest = without_padding fields in if f.is_padding then rest else f ∷ rest

-- `sort.Sort` with `Less` is the parameter `sort`; `optimize` is a call of it.
module _ (sort : (Field → Field → Bool) → List Field → List Field)
    (prefix_of : Name → Option Name) where
  unfoldable pub reorder : Bool → List Field → Option (List Field)
  unfolding without_padding
  reorder recurse [] = some []
  reorder recurse (f ∷ fields) = do
    parts ← if not recurse then combine prefix_of (f ∷ fields) else some (f ∷ fields)
    pad (sort less (without_padding parts))

greatest-le : (a : ℕ) (fields : List Field) → greatest a fields ≤ a + weight fields
greatest-le a [] = omega arith
greatest-le a (f ∷ fields) =
    ground (arith, greatest-le (if ltb a f.align then f.align else a) fields)

weight-Perm : {xs ys : List Field} → Permᴰ xs ys → weight xs ≡ weight ys
weight-Perm nil = refl
weight-Perm (cons e p) = omega (arith, ap (λ f. f.size) e, ap (λ f. f.align) e, weight-Perm p)
weight-Perm (swap e f) =
    omega (arith, ap (λ g. g.size) e, ap (λ g. g.align) e, ap (λ g. g.size) f, ap (λ g. g.align) f)
weight-Perm (trans p q) = weight-Perm p ∙ weight-Perm q

All-HasAlign_Perm : {xs ys : List Field} → Permᴰ xs ys → All HasAlign ys → All HasAlign xs
All-HasAlign_Perm nil h = h
All-HasAlign_Perm (cons e p) (h, hs) = (subst HasAlign (sym e) h, All-HasAlign_Perm p hs)
All-HasAlign_Perm (swap e f) (h, (k, hs)) =
    (subst HasAlign (sym e) k, (subst HasAlign (sym f) h, hs))
All-HasAlign_Perm (trans p q) h = All-HasAlign_Perm p (All-HasAlign_Perm q h)

-- The list is the other without its padding.
pub data Leaves : List Field → List Field → Type 0 where
  leaves_nil : Leaves [] []
  padding_out :
      {f : Field} {fs kept : List Field}
      → f.is_padding ≡ true
      → Leaves fs kept
      → Leaves (f ∷ fs) kept
  field_in :
      {f : Field} {fs kept : List Field}
      → f.is_padding ≡ false
      → Leaves fs kept
      → Leaves (f ∷ fs) (f ∷ kept)

without_padding-Leaves : (fs kept : List Field) → Leaves fs kept → without_padding fs ≡ kept
unfolding without_padding
without_padding-Leaves fs kept leaves_nil = refl
without_padding-Leaves fs kept (padding_out e l) = rw e (without_padding-Leaves _ _ l)
without_padding-Leaves fs kept (field_in {f = f} e l) =
    simp e (ap (λ r. f ∷ r) (without_padding-Leaves _ _ l))

-- Each two members, the first of which stands before the second, are related.
abbrev pub Pairs : (Field → Field → Type 0) → List Field → Type 0
Pairs R [] = Unit
Pairs R (f ∷ fs) = All (λ g. R f g) fs × Pairs R fs

-- Fields without a size come first, then those with a greater alignment, then the larger ones.
abbrev pub IsPlaced : Field → Field → Type 0
IsPlaced f g =
    (f.size ≡ 0)
    ⊎ ((0 < g.size) × ((g.align < f.align) ⊎ ((f.align ≡ g.align) × (g.size ≤ f.size))))

less-IsPlaced : (f g : Field) → IsSmall f → IsSmall g → less g f ≡ false → IsPlaced f g
less-IsPlaced f g s t e =
    let e' = sym (less-eq g f t s) ∙ e in
    elim (Bool-cases (f.size == 0)) [
      | inl z ↦ inl (ground (arith, z, ==_iff f.size 0))
      | inr z ↦
          let p : 0 < g.size = ground (arith, e', z, ==_iff g.size 0) in
          elim (Bool-cases (g.align == f.align)) [
            | inr n ↦
                inr (p, inl (ground (arith, e', z, n, ==_iff g.align f.align, ==_iff g.size 0)))
            | inl n ↦ inr (
              p,
              inr (
                ground (arith, n, ==_iff g.align f.align),
                ground (
                  arith,
                  e',
                  z,
                  n,
                  ==_iff g.align f.align,
                  ==_iff g.size 0,
                  ==_iff g.size f.size,
                ),
              ),
            )
          ]
    ]

weight-IsSmall : (fs : List Field) → weight fs < 9223372036854775808 → All IsSmall fs
weight-IsSmall [] h = tt
weight-IsSmall (f ∷ fs) h = (
  record { size_small = omega arith; align_small = omega arith },
  weight-IsSmall fs (omega arith),
)

sorted_after :
    (f : Field) (fs : List Field)
    → IsSmall f
    → All IsSmall fs
    → All (λ g. less g f ≡ false) fs
    → All (λ g. IsPlaced f g) fs
sorted_after f [] s ss h = tt
sorted_after f (g ∷ fs) s (t, ss) (e, h) = (less-IsPlaced f g s t e, sorted_after f fs s ss h)

Pairs-IsPlaced :
    (fs : List Field) → All IsSmall fs → Pairs (λ f g. less g f ≡ false) fs → Pairs IsPlaced fs
Pairs-IsPlaced [] ss h = tt
Pairs-IsPlaced (f ∷ fs) (s, ss) (h, hs) = (sorted_after f fs s ss h, Pairs-IsPlaced fs ss hs)

-- With `-r`: the fields that are read, without the padding, whose alignments are not 0 and that are not
-- too large for int64, are laid out as `pad` lays them out, in an order in which fields without a size
-- come first, then those with a greater alignment, and of the same alignment the larger ones. What is
-- asked of the sort is that it permutes these fields and leaves none before one that is less.
pub reorder-IsPadded :
    (sort : (Field → Field → Bool) → List Field → List Field) (prefix_of : Name → Option Name)
    (f : Field) (fields kept : List Field)
    → Leaves (f ∷ fields) kept
    → Permᴰ (sort less kept) kept
    → Pairs (λ g h. less h g ≡ false) (sort less kept)
    → All HasAlign kept
    → 2 * weight kept + 1 < 9223372036854775808
    → (order : List Field) × (out : List Field) × Permᴰ order kept
      × (reorder sort prefix_of true (f ∷ fields) ≡ some out)
      × Pairs IsPlaced order
      × IsPadded order out
unfolding reorder
reorder-IsPadded sort prefix_of f fields kept l p o h k =
    let w = weight-Perm p in
    let (out, e, laid) =
      pad-IsPadded (sort less kept) (All-HasAlign_Perm p h)
        (omega (arith, w, greatest-le 1 (sort less kept))) in
    (
      sort less kept,
      out,
      p,
      ap (λ parts. pad (sort less parts)) (without_padding-Leaves (f ∷ fields) kept l) ∙ e,
      Pairs-IsPlaced (sort less kept) (weight-IsSmall (sort less kept) (omega (arith, w))) o,
      laid,
    )
