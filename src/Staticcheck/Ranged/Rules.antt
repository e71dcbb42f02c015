-- ===== src/Staticcheck/Ranged/Rules.antt =====
-- About `IntValue` and `UnbufferedChannel` (staticcheck/rules.go).
use go_tools.Common.{
  ◌≡◌, inl, inr, refl, sym, subst, ap, ◌∙◌, some, Bool, true, false, pos, ℤ, eq_of_parts, pos_part,
  neg_part, ◌+◌, Bool-cases, arith, Ordering,
}
use go_tools.Vrp.Z.{Z, unset, n_infinity, p_infinity, finite, is_null}
use go_tools.Vrp.Z.Order.{IsProper, ◌≤Z◌, cmp_returns, Compares}
use go_tools.Vrp.Interval.Set.{Contains}
use go_tools.Vrp.Range.{Range, interval, int_range, channel_range}
use go_tools.Staticcheck.Ranged.{differ, int_value, unbuffered_channel}
use go_tools.Staticcheck.Ranged.Sound.{Describes}

Compares-null : (z1 z2 : Z) (c : Ordering) → Compares z1 z2 c → is_null c ≡ true → z1 ≡ z2
Compares-null z1 z2 Ordering.eq h e = h
Compares-null z1 z2 Ordering.lt h e = cc
Compares-null z1 z2 Ordering.gt h e = cc

pinned : (z : Z) (n : ℤ) → z ≤Z finite n → finite n ≤Z z → finite n ≡ z
pinned (finite a) n h k = ap finite (eq_of_parts n a (omega arith))
pinned unset n h k = absurd h
pinned n_infinity n h k = absurd k
pinned p_infinity n h k = absurd h

differ-eq : (shared : Bool) (l u : Z) → (shared ≡ true → l ≡ u) → differ shared l u ≡ false → l ≡ u
differ-eq true l u h e = h refl
differ-eq false n_infinity n_infinity h e = refl
differ-eq false p_infinity p_infinity h e = refl
differ-eq false _ _ h e = ground arith

-- `IntValue` at a value whose range describes a number and whose bounds share an integer only if they
-- are equal does not panic, for a `z` that is set, and where it returns true the number is `z`.
pub int_value_sound :
    (shared : Bool) (range : Range) (z : Z) (n : ℤ)
    → IsProper z
    → Describes (interval range) n
    → (shared ≡ true → (interval range).lower ≡ (interval range).upper)
    → (b : Bool) × (int_value shared (some range) z ≡ some b) × (b ≡ true → finite n ≡ z)
unfolding int_value
int_value_sound shared (int_range i) z n p (inl u) h =
    (false, rw (ap (λ j. j.known) u) refl, λ t. cc)
int_value_sound shared (int_range i) z n p (inr (v, k)) h =
    elim (Bool-cases (differ shared i.lower i.upper)) [
      | inl d ↦ (false, ground (arith, d, v.is_known), λ t. cc)
      | inr d ↦
          let (c, e, g) = cmp_returns i.lower z v.lower_proper p in
          let same = differ-eq shared i.lower i.upper h d in
          (
            is_null c,
            rw (v.is_known, d, e) refl,
            λ t.
                pinned i.lower n k.above (subst (λ w. finite n ≤Z w) (sym same) k.below)
                ∙ Compares-null i.lower z c g t,
          )
    ]
int_value_sound shared _ z n p q h = (false, refl, λ t. cc)

-- `UnbufferedChannel` at a value whose range describes a size does not panic, and where it returns true
-- the range is one of channels and the size is 0.
pub unbuffered_channel_sound :
    (range : Range) (n : ℤ)
    → Describes (interval range) n
    → (b : Bool) × (unbuffered_channel (some range) ≡ some b)
      × (b ≡ true → (range ≡ channel_range (interval range)) × (n ≡ pos 0))
unfolding unbuffered_channel
unbuffered_channel_sound (channel_range i) n (inl u) =
    (false, rw (ap (λ j. j.known) u) refl, λ t. cc)
unbuffered_channel_sound (channel_range i) n (inr (v, k)) =
    let (c, e, g) = cmp_returns i.lower (finite (pos 0)) v.lower_proper tt in
    let (d, f, h) = cmp_returns i.upper (finite (pos 0)) v.upper_proper tt in
    elim (Bool-cases (is_null c)) [
      | inr q ↦ (false, rw (v.is_known, e, q) refl, λ t. cc)
      | inl q ↦ (
        is_null d,
        rw (v.is_known, e, q, f) refl,
        λ t. (
          refl,
          eq_of_parts n (pos 0) (
              between (Compares-null i.lower (finite (pos 0)) c g q)
                (Compares-null i.upper (finite (pos 0)) d h t) k),
        ),
      )
    ]
  where
    between :
        i.lower ≡ finite (pos 0)
        → i.upper ≡ finite (pos 0)
        → Contains i n
        → pos_part n + neg_part (pos 0) ≡ pos_part (pos 0) + neg_part n
    between l u k =
        let a : finite (pos 0) ≤Z finite n = subst (λ w. w ≤Z finite n) l k.above in
        let b : finite n ≤Z finite (pos 0) = subst (λ w. finite n ≤Z w) u k.below in omega arith
unbuffered_channel_sound _ n q = (false, refl, λ t. cc)
