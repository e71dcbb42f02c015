-- ===== src/Staticcheck/Appends/Exact.antt =====
-- About what `CheckIneffectiveAppend` (staticcheck/lint.go) reports.
use go_tools.Common.{
  ◌≡◌, ◌↔◌, inl, inr, refl, sym, subst, eq_of_some, Option, none, some, Bool, true, false, not,
  List, [], ℕ, ◌<◌, arith,
}
use go_tools.Common.Search.{member, Leads, here, step, Below, unseen-le}
use go_tools.Staticcheck.Appends.{Use, append, check_append, next}
use go_tools.Staticcheck.Appends.Walk.{Uses, IsDone, IsWalk, walk_refs-Walked}

module _ (kind : ℕ → Use) (referrers : ℕ → List ℕ) where
  IsDone-Leads :
      (visited : List ℕ)
      → ((x : ℕ) → member x visited ≡ true → IsDone kind referrers visited x)
      → {x y : ℕ} → Leads (next kind referrers) x y
      → member x visited ≡ true
      → IsDone kind referrers visited y
  IsDone-Leads visited h here m = h _ m
  IsDone-Leads visited h (step n l) m = IsDone-Leads visited h l ((h _ m).followed _ n)

  -- A call of append with a list of referrers, from which no use is reached over phis, sigmas and calls
  -- of append.
  pub record IsIneffective (kd : Use) (refs : Option (List ℕ)) : Type 0 where
    pub is_append : kd ≡ append
    pub list : List ℕ
    pub has_list : refs ≡ some list
    pub unused : Uses kind referrers list → ⊥

  walk-IsIneffective :
      (k : ℕ) (refs visited : List ℕ) (used : Bool)
      → IsWalk kind referrers k refs [] false visited used
      → (not used ≡ true) ↔ (Uses kind referrers refs → ⊥)
  walk-IsIneffective k refs visited true w =
      (λ e. cc, λ n. elim (w.found refl) [ inl e ↦ cc | inr u ↦ absurd (n u) ])
  walk-IsIneffective k refs visited false w = (
    λ e (t, y, m, l, i).
        let done : (x : ℕ) → member x visited ≡ true → IsDone kind referrers visited x =
          λ x n. elim (w.done refl x n) [ inl o ↦ cc | inr d ↦ d ] in
        let d = IsDone-Leads visited done l (w.covered refl t m) in d.unused i,
    λ n. refl,
  )

  -- Where the instructions that lead on to others are below `k`, the walk ends, and an instruction is
  -- reported exactly if it is a call of append, with a list of referrers, from which no use is reached
  -- over phis, sigmas and calls of append; debug references are no uses.
  pub check_append_exact :
      (k fuel : ℕ) (kd : Use) (refs : Option (List ℕ))
      → ((x : ℕ) → x < k → Below k (next kind referrers x))
      → ((rs : List ℕ) → refs ≡ some rs → Below k rs)
      → k < fuel
      → (b : Bool) × (check_append kind referrers fuel kd refs ≡ some b)
        × ((b ≡ true) ↔ IsIneffective kd refs)
  unfolding check_append
  check_append_exact k fuel append none nb rb h = (false, refl, (λ e. cc, λ i. cc (i.has_list)))
  check_append_exact k fuel append (some rs) nb rb h =
      let (v, u, e, w) =
        walk_refs-Walked kind referrers k fuel rs [] false nb (omega (arith, unseen-le k []))
          (rb rs refl) (λ x n. cc) in
      let q = walk-IsIneffective k rs v u w in
      (
        not u,
        rw e refl,
        (
          λ t. record { is_append = refl; list = rs; has_list = refl; unused = q.0 t },
          λ i. q.1 (subst (λ l. Uses kind referrers l → ⊥) (sym (eq_of_some i.has_list)) i.unused),
        ),
      )
  check_append_exact k fuel other refs nb rb h = (false, refl, (λ e. cc, λ i. cc (i.is_append)))
