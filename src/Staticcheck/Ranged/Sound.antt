-- ===== src/Staticcheck/Ranged/Sound.antt =====
-- About the checks that ask the ranges of package vrp (staticcheck/lint.go, staticcheck/rules.go).
use go_tools.Common.{
  ◌≡◌, ◌≢◌, ◌⊎◌, inl, inr, refl, sym, subst, ap, Option, none, some, Bool, true, false, not, ◌||◌,
  ◌&&◌, ℤ, ◌≤ℤ◌, Bool-cases, arith, Ordering, eq_of_some,
}
use go_tools.Vrp.Z.{finite, is_minus}
use go_tools.Vrp.Z.Order.{◌≤Z◌, ≤Z_trans, cmp_returns, Compares}
use go_tools.Vrp.Interval.{IntInterval, unknown, empty, intersection}
use go_tools.Vrp.Interval.Set.{Contains, IsValid, not-Contains-empty}
use go_tools.Vrp.Interval.Lattice.{intersection-IsMeet}
use go_tools.Vrp.Range.{
  Range, interval, int_range, string_range, slice_range, GoType, Value, Ranges, as_shape, int_shape,
  slice_shape, string_shape, find, get, zero_range, basic, chan_type, slice_type, BasicKind, text,
}
use go_tools.Vrp.Range.Hull.{IsRange}
use go_tools.Vrp.Token.{Token}
use go_tools.Staticcheck.Ranged.{
  past_end, range_at, check_index, is_equality, disjoint, check_sizes,
}

-- What `Cmp` answers of the lower bound of the one and the upper of the other.
past_end_sound :
    (length index : IntInterval)
    → IsRange length
    → IsRange index
    → (b : Bool) × (past_end length index ≡ some b)
      × (b ≡ true → (l n : ℤ) → Contains length l → Contains index n → l ≤ℤ n)
unfolding past_end
past_end_sound length index (inl u) q = (false, rw u refl, λ e. cc)
past_end_sound length index (inr v) (inl u) = (false, ground arith, λ e. cc)
past_end_sound length index (inr v) (inr w) = elim (Bool-cases (empty length || empty index)) [
  | inl e ↦ (false, ground (arith, e), λ e. cc)
  | inr e ↦
      let (c, f, h) = cmp_returns index.lower length.upper w.lower_proper v.upper_proper in
      (
        not (is_minus c),
        ground (arith, e, f, v.is_known, w.is_known),
        λ t l n k m. between c l n h t k m,
      )
]
  where
    between :
        (c : Ordering) (l n : ℤ)
        → Compares index.lower length.upper c
        → not (is_minus c) ≡ true
        → Contains length l
        → Contains index n
        → l ≤ℤ n
    between Ordering.lt l n h t k m = cc
    between Ordering.eq l n h t k m =
        ≤Z_trans (finite l) length.upper (finite n) k.below (subst (λ z. z ≤Z finite n) h m.above)
    between Ordering.gt l n h t k m =
        ≤Z_trans (finite l) length.upper (finite n) k.below
          (≤Z_trans length.upper index.lower (finite n) h.0 m.above)

-- An interval that says nothing, or a valid one that holds the number.
abbrev pub Describes : IntInterval → ℤ → Type 0
Describes i n = (i ≡ unknown) ⊎ (IsValid i × Contains i n)

-- The ranges that are there describe the numbers that a run has for its values: an integer, or the
-- length of a string or slice, or the size of a channel.
abbrev pub Holds : Ranges → (Value → ℤ) → Type 0
Holds r run = (x : Value) (g : Range) → range_at r x ≡ some g → Describes (interval g) (run x)

Describes-IsRange : (i : IntInterval) (n : ℤ) → Describes i n → IsRange i
Describes-IsRange i n (inl u) = inl (ap (λ j. j.known) u)
Describes-IsRange i n (inr (v, k)) = inr v

past_end-unknown :
    (length index : IntInterval)
    → (not length.known || not index.known) ≡ true
    → past_end length index ≡ some false
unfolding past_end
past_end-unknown length index e = ground (arith, e)

-- A report of the test says that the one number is not less than the other.
past_end-Describes :
    (length index : IntInterval) (l n : ℤ)
    → Describes length l
    → Describes index n
    → (b : Bool) × (past_end length index ≡ some b) × (b ≡ true → l ≤ℤ n)
past_end-Describes length index l n (inr (v, k)) (inr (w, m)) =
    let (b, e, h) = past_end_sound length index (inr v) (inr w) in (b, e, λ t. h t l n k m)
past_end-Describes length index l n (inl u) q =
    (false, past_end-unknown length index (rw (ap (λ j. j.known) u) refl), λ t. cc)
past_end-Describes length index l n (inr p) (inl u) = (
  false,
  past_end-unknown length index (ground (arith, ap (λ (j : IntInterval). j.known) u)),
  λ t. cc,
)

-- Where the ranges describe a run, `CheckSliceOutOfBounds` does not panic, and reports an IndexAddr only
-- if its type is a slice and the index of the run is not less than the length of the slice.
pub check_index_sound :
    (r : Ranges) (run : Value → ℤ) (is_slice : Bool) (x index : Value)
    → Holds r run
    → (b : Bool) × (check_index r is_slice x index ≡ some b)
      × (b ≡ true → (is_slice ≡ true) × (run x ≤ℤ run index))
unfolding check_index
check_index_sound r run false x index h = (false, refl, λ e. cc)
check_index_sound r run true x index h = by_ranges (range_at r x) (range_at r index) refl refl
  where
    by_ranges :
        (g g' : Option Range)
        → range_at r x ≡ g
        → range_at r index ≡ g'
        → (b : Bool) × ((elim (as_shape slice_shape g) [
          | none ↦ some false
          | some sr ↦ elim (as_shape int_shape g') [
            | none ↦ some false
            | some idxr ↦ past_end sr idxr
          ]
        ])
            ≡ some b)
          × (b ≡ true → (true ≡ true) × (run x ≤ℤ run index))
    by_ranges (some (slice_range s)) (some (int_range i)) e f =
        let (b, q, k) =
          past_end-Describes s i (run x) (run index) (h x (slice_range s) e)
            (h index (int_range i) f) in
        (b, q, λ t. (refl, k t))
    by_ranges (some (slice_range s)) none e f = (false, refl, λ t. cc)
    by_ranges (some (slice_range s)) (some _) e f = (false, refl, λ t. cc)
    by_ranges none g' e f = (false, refl, λ t. cc)
    by_ranges (some _) g' e f = (false, refl, λ t. cc)

intersection-left : (i1 i2 : IntInterval) → i1.known ≡ false → intersection i1 i2 ≡ some i2
unfolding intersection
intersection-left i1 i2 e = rw e refl

intersection-right :
    (i1 i2 : IntInterval) → i1.known ≡ true → i2.known ≡ false → intersection i1 i2 ≡ some i1
unfolding intersection
intersection-right i1 i2 e f = ground (arith, e, f)

disjoint-Describes :
    (i1 i2 : IntInterval) (n1 n2 : ℤ)
    → Describes i1 n1
    → Describes i2 n2
    → (b : Bool) × (disjoint i1 i2 ≡ some b) × (b ≡ true → n1 ≢ n2)
unfolding disjoint
disjoint-Describes i1 i2 n1 n2 (inr (v, k)) (inr (w, m)) =
    let (i, e, s) = intersection-IsMeet i1 i2 v w in
    (
      empty i,
      rw e refl,
      λ t q. not-Contains-empty i n1 t (s.inside n1 k (subst (λ n. Contains i2 n) (sym q) m)),
    )
disjoint-Describes i1 i2 n1 n2 (inl u) q =
    (empty i2, rw (intersection-left i1 i2 (ap (λ j. j.known) u)) refl, λ t. absurd (full q t))
  where
    full : Describes i2 n2 → empty i2 ≡ true → ⊥
    full (inl e) t = let f : false ≡ empty i2 = sym (ap (λ j. empty j) e) in cc
    full (inr (w, m)) t = not-Contains-empty i2 n2 t m
disjoint-Describes i1 i2 n1 n2 (inr (v, k)) (inl u) = (
  empty i1,
  rw (intersection-right i1 i2 v.is_known (ap (λ j. j.known) u)) refl,
  λ t. absurd (not-Contains-empty i1 n1 t k),
)

get-Describes :
    (type_of : Value → GoType) (r : Ranges) (run : Value → ℤ) (x : Value) (g : Range)
    → Holds r run
    → get type_of r (some x) ≡ some g
    → Describes (interval g) (run x)
unfolding get
get-Describes type_of r run x g h e = by_found (find r x) refl e
  where
    basic_zero :
        (kd : BasicKind)
        → (elim kd [ text ↦ some (string_range unknown) | _ ↦ some (int_range unknown) ]) ≡ some g
        → Describes (interval g) (run x)
    basic_zero text e = inl (ap interval (sym (eq_of_some e)))
    basic_zero _ e = inl (ap interval (sym (eq_of_some e)))

    of_zero : (t : GoType) → zero_range t ≡ some g → Describes (interval g) (run x)
    of_zero (basic b) e = basic_zero b.kind e
    of_zero chan_type e = inl (ap interval (sym (eq_of_some e)))
    of_zero slice_type e = inl (ap interval (sym (eq_of_some e)))
    of_zero _ e = cc

    by_found :
        (f : Option (Option Range))
        → find r x ≡ f
        → (elim f [ none ↦ zero_range (type_of x) | some i ↦ i ]) ≡ some g
        → Describes (interval g) (run x)
    by_found none q e = of_zero (type_of x) e
    by_found (some i) q e = h x g (rw (q, range_at) e)

-- Where the ranges describe a run, `CheckDiffSizeComparison` does not panic, and reports a BinOp only if
-- it compares for equality, one of its operands is a slice expression, and the lengths of the strings
-- differ in the run.
pub check_sizes_sound :
    (type_of : Value → GoType) (r : Ranges) (run : Value → ℤ) (op : Token) (sliced1 sliced2 : Bool)
    (x y : Value)
    → Holds r run
    → (b : Bool) × (check_sizes type_of r op sliced1 sliced2 x y ≡ some b)
      × (b ≡ true → (is_equality op ≡ true) × ((sliced1 || sliced2) ≡ true) × (run x ≢ run y))
unfolding check_sizes
check_sizes_sound type_of r run op sliced1 sliced2 x y h =
    elim (Bool-cases (not (is_equality op) || (not sliced1 && not sliced2))) [
      | inl e ↦ (false, rw e refl, λ t. cc)
      | inr e ↦
          let (b, q, k) = by_ranges (get type_of r (some x)) (get type_of r (some y)) refl refl in
          (b, rw e q, λ t. (ground (arith, e), ground (arith, e), k t))
    ]
  where
    by_ranges :
        (g g' : Option Range)
        → get type_of r (some x) ≡ g
        → get type_of r (some y) ≡ g'
        → (b : Bool) × ((elim (as_shape string_shape g) [
          | none ↦ some false
          | some r1 ↦ elim (as_shape string_shape g') [
            | none ↦ some false
            | some r2 ↦ disjoint r1 r2
          ]
        ])
            ≡ some b)
          × (b ≡ true → run x ≢ run y)
    by_ranges (some (string_range s)) (some (string_range i)) e f =
        disjoint-Describes s i (run x) (run y) (get-Describes type_of r run x (string_range s) h e)
          (get-Describes type_of r run y (string_range i) h f)
    by_ranges (some (string_range s)) none e f = (false, refl, λ t. cc)
    by_ranges (some (string_range s)) (some _) e f = (false, refl, λ t. cc)
    by_ranges none g' e f = (false, refl, λ t. cc)
    by_ranges (some _) g' e f = (false, refl, λ t. cc)
