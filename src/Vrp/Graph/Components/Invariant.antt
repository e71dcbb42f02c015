-- ===== src/Vrp/Graph/Components/Invariant.antt =====
-- `FindSCCs` of staticcheck/vrp/vrp.go: what holds of the search between its steps.
use go_tools.Common.{
  ℕ, zero, suc, ◌+◌, ◌≤◌, ◌<◌, ◌≡◌, ◌≢◌, ◌⊎◌, refl, true, false, ◌||◌, List, [], ◌∷◌, ◌++◌,
  if◌then◌else◌, ◌==◌, ==_iff, arith,
}
use go_tools.Common.Search.{member, Leads, here, step}
use go_tools.Vrp.Graph.Components.{Tarjan, lower}

pub member-append : (x : ℕ) (s r : List ℕ) → member x (s ++ r) ≡ (member x s || member x r)
member-append x [] r = refl
member-append x (y ∷ s) r = ground (arith, member-append x s r)

-- Seen, and popped again.
abbrev pub IsClosed : Tarjan → ℕ → Type 0
IsClosed t x = (0 < (t.marks x).index) × ((t.marks x).stack ≡ false)

-- Seen, and if it is on the stack, not below the index `l`.
abbrev pub IsAbove : Tarjan → ℕ → ℕ → Type 0
IsAbove t l y = (0 < (t.marks y).index) × ((t.marks y).stack ≡ true → l ≤ (t.marks y).index)

-- How many vertices below `k` are not seen.
unfoldable pub unmarked : ℕ → Tarjan → ℕ
unmarked zero t = 0
unmarked (suc k) t = (if (t.marks k).index == 0 then 1 else 0) + unmarked k t

module _ (next : ℕ → List ℕ) where
  pub record IsState (t : Tarjan) : Type 0 where
    pub before : (x : ℕ) → (t.marks x).index < t.index
    pub flagged : (x : ℕ) → (t.marks x).stack ≡ true → member x t.s ≡ true
    pub held : (x : ℕ) → member x t.s ≡ true → ((t.marks x).stack ≡ true) × (0 < (t.marks x).index)
    pub numbered : (x : ℕ) → IsClosed t x → (t.marks x).scc < t.scc
    pub closed :
        (x y : ℕ)
        → IsClosed t x
        → member y (next x) ≡ true
        → IsClosed t y × ((t.marks y).scc ≤ (t.marks x).scc)
    pub linked :
        (x y : ℕ) → IsClosed t x → IsClosed t y → (t.marks x).scc ≡ (t.marks y).scc → Leads next x y

  -- An entry of the stack below, that `v` leads to and that is not above the index `l`.
  abbrev pub Anchor : Tarjan → ℕ → ℕ → Type 0
  Anchor t v l = (y : ℕ) × (member y t.s ≡ true) × ((t.marks y).index ≤ l) × Leads next v y

  -- What a call of `strongconnect` for `v` makes of `t`.
  pub record Connected (v : ℕ) (t t' : Tarjan) : Type 0 where
    pub state : IsState t'
    pub new : List ℕ
    pub split : t'.s ≡ new ++ t.s
    pub kept : (x : ℕ) → 0 < (t.marks x).index → t'.marks x ≡ t.marks x
    pub grown :
        (x : ℕ) → (t.marks x).index ≡ 0 → 0 < (t'.marks x).index → t.index ≤ (t'.marks x).index
    pub later : t.index ≤ t'.index
    pub entered : 0 < (t'.marks v).index
    pub alone : (t'.marks v).stack ≡ true → (t'.marks v).lowlink ≤ (t'.marks v).index
    pub fresh : (x : ℕ) → member x new ≡ true → (t.marks x).index ≡ 0
    pub edges :
        (x y : ℕ)
        → member x new ≡ true
        → member y (next x) ≡ true
        → IsAbove t' (t'.marks v).lowlink y
    pub forth : (x : ℕ) → member x new ≡ true → Leads next v x
    pub back : (x : ℕ) → member x new ≡ true → Leads next x v
    pub low : ((new ≡ []) × (t.index ≤ (t'.marks v).lowlink)) ⊎ Anchor t v (t'.marks v).lowlink

  -- What the loop over the successors of `v` has made of `t`; `todo` are left.
  pub record Follows (v : ℕ) (t : Tarjan) (todo : List ℕ) (t' : Tarjan) : Type 0 where
    pub state : IsState t'
    pub new : List ℕ
    pub split : t'.s ≡ new ++ (v ∷ t.s)
    pub kept : (x : ℕ) → 0 < (t.marks x).index → t'.marks x ≡ t.marks x
    pub grown :
        (x : ℕ) → (t.marks x).index ≡ 0 → 0 < (t'.marks x).index → t.index ≤ (t'.marks x).index
    pub later : t.index < t'.index
    pub own : (t'.marks v).index ≡ t.index
    pub under : (t'.marks v).lowlink ≤ t.index
    pub fresh : (x : ℕ) → member x new ≡ true → ((t.marks x).index ≡ 0) × (x ≢ v)
    pub edges :
        (x y : ℕ)
        → member x new ≡ true
        → member y (next x) ≡ true
        → IsAbove t' (t'.marks v).lowlink y
    pub followed :
        (y : ℕ)
        → member y (next v) ≡ true
        → (member y todo ≡ true) ⊎ IsAbove t' (t'.marks v).lowlink y
    pub forth : (x : ℕ) → member x new ≡ true → Leads next v x
    pub back : (x : ℕ) → member x new ≡ true → Leads next x v
    pub low : (t.index ≤ (t'.marks v).lowlink) ⊎ Anchor t v (t'.marks v).lowlink

  pub Leads-trans : {x y z : ℕ} → Leads next x y → Leads next y z → Leads next x z
  Leads-trans here m = m
  Leads-trans (step e l) m = step e (Leads-trans l m)

-- What `lower` makes of `t`.
pub record IsLowered (v l : ℕ) (t t' : Tarjan) : Type 0 where
  pub index_same : (x : ℕ) → (t'.marks x).index ≡ (t.marks x).index
  pub scc_same : (x : ℕ) → (t'.marks x).scc ≡ (t.marks x).scc
  pub stack_same : (x : ℕ) → (t'.marks x).stack ≡ (t.marks x).stack
  pub others : (x : ℕ) → x ≢ v → t'.marks x ≡ t.marks x
  pub at_most : (t'.marks v).lowlink ≤ l
  pub not_raised : (t'.marks v).lowlink ≤ (t.marks v).lowlink
  pub one_of : ((t'.marks v).lowlink ≡ l) ⊎ ((t'.marks v).lowlink ≡ (t.marks v).lowlink)
  pub s_same : t'.s ≡ t.s
  pub next_same : t'.index ≡ t.index
  pub count_same : t'.scc ≡ t.scc

pub lower-IsLowered : (v l : ℕ) (t : Tarjan) → IsLowered v l t (lower v l t)
unfolding lower
lower-IsLowered v l t = record {
  index_same = λ x. ground (arith, ==_iff v x);
  scc_same = λ x. ground (arith, ==_iff v x);
  stack_same = λ x. ground (arith, ==_iff v x);
  others = λ x h. ground (arith, ==_iff v x);
  at_most = ground (arith, ==_iff v v);
  not_raised = ground (arith, ==_iff v v);
  one_of = ground (arith, ==_iff v v);
  s_same = ground arith;
  next_same = ground arith;
  count_same = ground arith;
}
