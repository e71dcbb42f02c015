-- ===== src/Layout/Align.antt =====
-- `align` and `Less` of cmd/structlayout-optimize/main.go.
use go_tools.Common.{
  ℕ, ◌+◌, ◌-◌, ◌*◌, ◌/◌, ◌%◌, ◌≤◌, ◌<◌, ◌≡◌, refl, sym, ◌∙◌, true, false, not, ◌&&◌, some, arith,
  if◌then◌else◌, ltb, ◌==◌,
}
use go_tools.Layout.{Field, align_up, less}
use go_tools.Layout.Machine.{Int64, add64_small, sub64_small, rem64_small, less64_small}

-- What `align` answers: the least multiple of `a` that is at least `x`.
pub record IsAligned (x a y : ℕ) : Type 0 where
  pub factor : ℕ
  pub multiple : y ≡ factor * a
  pub above : x ≤ y
  pub close : y < x + a

align_up-computed :
    (x a : Int64)
    → 0 < a
    → x + a < 9223372036854775808
    → align_up x a ≡ some ((x + a - 1) - (x + a - 1) % a)
unfolding align_up
align_up-computed x a p h =
    rw
      (
        add64_small x a h,
        sub64_small (x + a) 1 (omega arith) h,
        rem64_small (x + a - 1) a (omega arith) p (omega arith),
        sub64_small (x + a - 1) ((x + a - 1) % a) (omega arith) (omega arith),
      )
      refl

-- For an alignment that is not 0, and numbers whose sum is below 2 ^ 63, `align` does not panic and
-- answers the multiple of the alignment `a` in the interval from `x` to `x + a - 1`.
pub align_up-IsAligned :
    (x a : Int64)
    → 0 < a
    → x + a < 9223372036854775808
    → (y : Int64) × (align_up x a ≡ some y) × IsAligned x a y
align_up-IsAligned x a p h = (
  (x + a - 1) - (x + a - 1) % a,
  align_up-computed x a p h,
  record {
    factor = (x + a - 1) / a;
    multiple = omega arith;
    above = omega arith;
    close = omega arith;
  },
)

-- A size and an alignment that int64 holds as they are.
pub record IsSmall (f : Field) : Type 0 where
  pub size_small : f.size < 9223372036854775808
  pub align_small : f.align < 9223372036854775808

-- `Less` on numbers of ℕ
pub less-eq :
    (a b : Field)
    → IsSmall a
    → IsSmall b
    → less a b ≡ (
        if (a.size == 0) && not (b.size == 0)
        then true
        else if (b.size == 0) && not (a.size == 0)
        then false
        else if not (a.align == b.align)
        then ltb b.align a.align
        else if not (a.size == b.size)
        then ltb b.size a.size
        else false)
unfolding less
less-eq a b s t =
    rw
      (
        less64_small b.align a.align t.align_small s.align_small,
        less64_small b.size a.size t.size_small s.size_small,
      )
      refl

-- Of fields whose sizes and alignments are not negative: `Less` is transitive, and a field is not both
-- before and after another.
pub less_transitive :
    (a b c : Field)
    → IsSmall a
    → IsSmall b
    → IsSmall c
    → less a b ≡ true
    → less b c ≡ true
    → (less a c ≡ true) × (less b a ≡ false)
less_transitive a b c s t u h k =
    let h' = sym (less-eq a b s t) ∙ h in
    let k' = sym (less-eq b c t u) ∙ k in
    (less-eq a c s u ∙ ground arith, less-eq b a t s ∙ ground arith)

-- Of fields whose sizes and alignments are not negative: of three fields, the first is before the last
-- only if it is before the second or the second is before the last.
pub less_weak :
    (a b c : Field)
    → IsSmall a
    → IsSmall b
    → IsSmall c
    → less a b ≡ false
    → less b c ≡ false
    → less a c ≡ false
less_weak a b c s t u h k =
    let h' = sym (less-eq a b s t) ∙ h in
    let k' = sym (less-eq b c t u) ∙ k in less-eq a c s u ∙ ground arith
