-- ===== src/Vrp/Sigma/Sound.antt =====
-- The constraint of an integer on one branch of a comparison (staticcheck/vrp/vrp.go).
use go_tools.Common.{
  ◌≡◌, refl, ap, ◌⊎◌, inl, inr, some, none, Bool, true, false, not, ℤ, arith, ◌==◌, ==_iff,
  Bool-cases, if◌then◌else◌,
}
use go_tools.Vrp.Token.{Token, lss, gtr, eql, neq, geq, leq, compares, invert_token, flip_token}
use go_tools.Vrp.Constraint.{Meet, int_intersection, new_meet}
use go_tools.Vrp.Range.{Value}
use go_tools.Vrp.Sigma.{Sigma, BinOp, branch_op, is_supported, sigma_integer}

-- The operator of the branch is true there.
pub branch_op_lem :
    (ins : Sigma) (cond : BinOp) (a b : ℤ)
    → compares cond.op a b ≡ some ins.branch
    → (op : Token) × (branch_op ins cond ≡ some op) × (compares op a b ≡ some true)
unfolding branch_op invert_token
branch_op_lem ins cond a b h = by_branch ins.branch cond.op h
  where
    by_branch :
        (branch : Bool) (op : Token)
        → compares op a b ≡ some branch
        → (o : Token) × ((if not branch then invert_token op else some op) ≡ some o)
          × (compares o a b ≡ some true)
    by_branch true op h = (op, refl, h)
    by_branch false lss h = (geq, refl, ground arith)
    by_branch false gtr h = (leq, refl, ground arith)
    by_branch false eql h = (neq, refl, ground arith)
    by_branch false neq h = (eql, refl, ground arith)
    by_branch false geq h = (lss, refl, ground arith)
    by_branch false leq h = (gtr, refl, ground arith)
    by_branch false _ h = cc

-- What the flipped operator says of the swapped operands.
flip_true :
    (op : Token) (a b : ℤ)
    → is_supported op ≡ true
    → compares op a b ≡ some true
    → (f : Token) × (flip_token op ≡ some f) × (compares f b a ≡ some true)
unfolding flip_token is_supported
flip_true lss a b s h = (gtr, refl, ground arith)
flip_true gtr a b s h = (lss, refl, ground arith)
flip_true eql a b s h = (eql, refl, ground arith)
flip_true geq a b s h = (leq, refl, ground arith)
flip_true leq a b s h = (geq, refl, ground arith)
flip_true _ a b s h = cc

unsupported_neq :
    (op : Token) (a b : ℤ) → is_supported op ≡ false → compares op a b ≡ some true → op ≡ neq
unfolding is_supported
unsupported_neq op a b s h = ground arith

module _ (ins : Sigma) (cond : BinOp) (ρ : Value → ℤ) where
  -- A constraint on the value of the branch, by a comparison with another value that is true.
  pub record IsTrue (m : Meet) : Type 0 where
    pub answer : sigma_integer ins cond ≡ some (some (int_intersection m ins.y))
    pub subject : m.a ≡ ins.x
    pub holds : compares m.op (ρ m.a) (ρ m.b) ≡ some true

  with_op :
      (op : Token)
      → branch_op ins cond ≡ some op
      → compares op (ρ cond.left) (ρ cond.right) ≡ some true
      → (cond.left ≡ ins.x) ⊎ (cond.right ≡ ins.x)
      → ((sigma_integer ins cond ≡ some none) × (op ≡ neq)) ⊎ ((m : Meet) × IsTrue m)
  unfolding sigma_integer
  with_op op e h x = elim (Bool-cases (is_supported op)) [
    | inr s ↦ inl (rw (e, s), unsupported_neq op (ρ cond.left) (ρ cond.right) s h)
    | inl s ↦ elim (Bool-cases (cond.left == ins.x)) [
      | inl l ↦ inr (
        new_meet cond.left cond.right op,
        record { answer = rw (e, s, l); subject = (==_iff cond.left ins.x).0 l; holds = h },
      )
      | inr l ↦
          let (f, ef, hf) = flip_true op (ρ cond.left) (ρ cond.right) s h in
          inr (
            new_meet cond.right cond.left f,
            record {
              answer = rw (e, s, l, ef);
              subject = elim x [ inl y ↦ absurd (ne l y) | inr y ↦ y ];
              holds = hf;
            },
          )
    ]
  ]
    where
      ne : (cond.left == ins.x) ≡ false → cond.left ≡ ins.x → ⊥
      ne l y = cc (l, (==_iff cond.left ins.x).1 y)

  -- On the branch that a comparison takes, of values that it compares, the constraint of one of the two
  -- says that this value compares so to the other; there is none only where the branch says that the
  -- two differ.
  pub sigma_integer_sound :
      compares cond.op (ρ cond.left) (ρ cond.right) ≡ some ins.branch
      → (cond.left ≡ ins.x) ⊎ (cond.right ≡ ins.x)
      → ((sigma_integer ins cond ≡ some none) × (branch_op ins cond ≡ some neq))
        ⊎ ((m : Meet) × IsTrue m)
  sigma_integer_sound h x =
      let (op, e, t) = branch_op_lem ins cond (ρ cond.left) (ρ cond.right) h in
      elim (with_op op e t x) [ inl n ↦ inl (n.0, rw e (ap some n.1)) | inr m ↦ inr m ]
