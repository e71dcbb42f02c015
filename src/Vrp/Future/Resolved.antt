-- ===== src/Vrp/Future/Resolved.antt =====
-- What `Resolve` finds of a comparison of integers (staticcheck/vrp/int.go and string.go).
use go_tools.Common.{
  ◌≢◌, ◌≡◌, refl, subst, ◌⊎◌, inl, inr, some, none, Option, Bool, true, false, ℤ, pos, ◌≤ℤ◌, neg_ℤ,
  arith, +ℤ_parts, eq_of_parts, neg_ℤ_parts,
}
use go_tools.Vrp.Z.{Z, finite, n_infinity, p_infinity, unset}
use go_tools.Vrp.Z.Order.{IsProper, ◌≤Z◌, ≤Z_trans}
use go_tools.Vrp.Z.Arithmetic.{sum, opposite, add-eq-sum, sub-eq-sum}
use go_tools.Vrp.Interval.{IntInterval, new_int_interval, infinity_for}
use go_tools.Vrp.Interval.Set.{Contains, IsValid, new_int_interval-IsSpan}
use go_tools.Vrp.Interval.Sound.{sum-IsProper}
use go_tools.Vrp.Token.{Token, lss, gtr, eql, neq, geq, leq, compares}
use go_tools.Vrp.Constraint.{Meet}
use go_tools.Vrp.Eval.Bounds.{Holding}
use go_tools.Vrp.Range.{Shape, int_shape, Value, Ranges, Types, BasicType, basic}
use go_tools.Vrp.Future.{admitted, range_at, resolve_int, resolve_string, is_unsigned_type}

pub spanning :
    (l u : Z) (n : ℤ)
    → IsProper l
    → IsProper u
    → l ≤Z finite n
    → finite n ≤Z u
    → Holding n (new_int_interval l u)
spanning l u n p q a b =
    let (i, e, s) = new_int_interval-IsSpan l u p q in (i, e, s.valid, s.inside n a b)

-- one more than a lower bound of a smaller number, one less than an upper bound of a greater one
sum_one :
    (l : Z) (a b : ℤ)
    → l ≤Z finite b
    → compares gtr a b ≡ some true
    → sum l (finite (pos 1)) ≤Z finite a
sum_one unset a b h c = h
sum_one n_infinity a b h c = tt
sum_one p_infinity a b h c = h
sum_one (finite n) a b h c = ground (arith, +ℤ_parts n (pos 1))

less_one :
    (u : Z) (a b : ℤ)
    → finite b ≤Z u
    → compares lss a b ≡ some true
    → finite a ≤Z sum u (opposite (finite (pos 1)))
less_one unset a b h c = h
less_one n_infinity a b h c = h
less_one p_infinity a b h c = tt
less_one (finite n) a b h c = ground (arith, +ℤ_parts n (neg_ℤ (pos 1)), neg_ℤ_parts (pos 1))

module _ (other : Option IntInterval) (a b : ℤ) (r : IntInterval) (v : IsValid r)
    (k : Contains r b) where
  -- What the other operand's range admits holds every integer that compares so to that operand.
  admitted_sound :
      (op : Token)
      → compares op a b ≡ some true
      → (op ≡ neq → Holding a other)
      → Holding a (admitted other op r)
  unfolding admitted
  admitted_sound eql h o =
      (r, refl, v, subst (λ n. Contains r n) (eq_of_parts b a (ground arith)) k)
  admitted_sound gtr h o = rw (add-eq-sum r.lower (finite (pos 1)) v.lower_proper tt) (
      spanning (sum r.lower (finite (pos 1))) p_infinity a
        (sum-IsProper r.lower (finite (pos 1)) v.lower_proper tt) tt (sum_one r.lower a b k.above h)
        tt)
  admitted_sound geq h o =
      spanning r.lower p_infinity a v.lower_proper tt
        (≤Z_trans r.lower (finite b) (finite a) k.above (ground arith)) tt
  admitted_sound lss h o = rw (sub-eq-sum r.upper (finite (pos 1)) v.upper_proper tt) (
      spanning n_infinity (sum r.upper (opposite (finite (pos 1)))) a tt
        (sum-IsProper r.upper (opposite (finite (pos 1))) v.upper_proper tt) tt
        (less_one r.upper a b k.below h))
  admitted_sound leq h o =
      spanning n_infinity r.upper a tt v.upper_proper tt
        (≤Z_trans (finite a) (finite b) r.upper (ground arith) k.below)
  admitted_sound neq h o = o refl
  admitted_sound _ h o = cc

pub infinity_for-Holding :
    (unsigned : Bool) (n : ℤ) → (unsigned ≡ true → pos 0 ≤ℤ n) → Holding n (infinity_for unsigned)
unfolding infinity_for
infinity_for-Holding true n h = spanning (finite (pos 0)) p_infinity n tt tt (h refl) tt
infinity_for-Holding false n h = spanning n_infinity p_infinity n tt tt tt tt

module _ (ts : Types) (r : Ranges) where
  -- The range of the other operand, if it is there with the right type, is valid and holds `b`.
  abbrev pub Agrees : Shape → Value → ℤ → Type 0
  Agrees s v b = (range_at ts r s v ≡ none) ⊎ Holding b (range_at ts r s v)

  -- If `a op b` is true, `b` being the value of the other operand, then `Resolve` of a comparison of
  -- integers does not panic, and the interval that it sets is valid and holds `a`.
  pub resolve_int_sound :
      (m : Meet) (y : Value) (a b : ℤ)
      → compares m.op a b ≡ some true
      → Agrees int_shape m.b b
      → (is_unsigned_type (ts.type_of y) ≡ true → pos 0 ≤ℤ a)
      → Holding a (resolve_int ts r m y)
  unfolding resolve_int
  resolve_int_sound m y a b c (inl e) u =
      rw (e, resolve_int) (infinity_for-Holding (is_unsigned_type (ts.type_of y)) a u)
  resolve_int_sound m y a b c (inr (i, e, v, k)) u =
      rw (e, resolve_int)
        (admitted_sound (infinity_for (is_unsigned_type (ts.type_of y))) a b i v k m.op c
          (λ _. infinity_for-Holding (is_unsigned_type (ts.type_of y)) a u))

  -- The same of a comparison of the length of a string with an integer, unless that is by `!=`.
  pub resolve_length_sound :
      (m : Meet) (t : BasicType) (a b : ℤ)
      → ts.type_of m.a ≡ basic t
      → t.is_string ≡ false
      → pos 0 ≤ℤ a
      → compares m.op a b ≡ some true
      → m.op ≢ neq
      → Agrees int_shape m.b b
      → Holding a (resolve_string ts r m)
  unfolding resolve_string
  resolve_length_sound m t a b et es h c n (inl e) =
      rw (et, es, e, resolve_string) (spanning (finite (pos 0)) p_infinity a tt tt h tt)
  resolve_length_sound m t a b et es h c n (inr (i, e, v, k)) =
      rw (et, es, e, resolve_string)
        (admitted_sound (some m.i) a b i v k m.op c (λ q. absurd (n q)))
