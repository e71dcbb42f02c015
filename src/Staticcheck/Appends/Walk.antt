-- ===== src/Staticcheck/Appends/Walk.antt =====
-- About `walkRefs` in `CheckIneffectiveAppend` (staticcheck/lint.go).
use go_tools.Common.{
  ◌≡◌, ◌⊎◌, inl, inr, refl, sym, subst, some, Bool, true, false, List, [], ◌∷◌, ◌++◌, ℕ, zero, suc,
  ◌<◌, arith, ==_iff, Bool-cases,
}
use go_tools.Common.Search.{
  member, member-add, Leads, here, step, Below, unseen, unseen_mono, unseen-add,
}
use go_tools.Staticcheck.Appends.{
  Use, debug_ref, phi, sigma, append, other_value, statement, walk_refs, next, IsUse, by_value,
  by_statement,
}

module _ (kind : ℕ → Use) (referrers : ℕ → List ℕ) where
  abbrev pub Uses : List ℕ → Type 0
  Uses refs =
      (t : ℕ) × (y : ℕ) × (member t refs ≡ true) × Leads (next kind referrers) t y × IsUse (kind y)

  -- A visited instruction that is no use, and from which all is visited.
  pub record IsDone (visited : List ℕ) (x : ℕ) : Type 0 where
    pub unused : IsUse (kind x) → ⊥
    pub followed : (y : ℕ) → member y (next kind referrers x) ≡ true → member y visited ≡ true

  -- What a walk over `refs` answers.
  pub record IsWalk (k : ℕ) (refs visited : List ℕ) (used : Bool) (visited' : List ℕ) (used' : Bool)
      : Type 0 where
    pub kept : (x : ℕ) → member x visited ≡ true → member x visited' ≡ true
    pub stays : used ≡ true → used' ≡ true
    pub found : used' ≡ true → (used ≡ true) ⊎ Uses refs
    pub covered : used' ≡ false → (x : ℕ) → member x refs ≡ true → member x visited' ≡ true
    pub done :
        used' ≡ false
        → (x : ℕ) → member x visited' ≡ true
        → (member x visited ≡ true) ⊎ IsDone visited' x
    pub below : Below k visited'

  IsWalk-nil :
      (k : ℕ) (visited : List ℕ) (used : Bool)
      → Below k visited
      → IsWalk k [] visited used visited used
  IsWalk-nil k visited used b = record {
    kept = λ x m. m;
    stays = λ e. e;
    found = λ e. inl e;
    covered = λ e x m. cc;
    done = λ e x m. inl m;
    below = b;
  }

  IsWalk-skip :
      (k ref : ℕ) (refs visited visited' : List ℕ) (used used' : Bool)
      → member ref visited ≡ true
      → IsWalk k refs visited used visited' used'
      → IsWalk k (ref ∷ refs) visited used visited' used'
  IsWalk-skip k ref refs visited visited' used used' m w = record {
    kept = w.kept;
    stays = w.stays;
    found = λ e. elim (w.found e) [
      | inl u ↦ inl u
      | inr (t, y, n, l, i) ↦ inr (t, y, ground arith, l, i)
    ];
    covered = λ e x n. ground (arith, w.covered e x, w.kept ref, ==_iff x ref);
    done = w.done;
    below = w.below;
  }

  -- An instruction that is entered, from the walk over what refers to it, and that over the others.
  -- Between, `entered` is the flag.
  IsWalk-enter :
      (k ref : ℕ) (refs visited visited1 visited2 : List ℕ) (used entered used1 used2 : Bool)
      → (used ≡ true → entered ≡ true)
      → (IsUse (kind ref) → entered ≡ true)
      → (entered ≡ true → (used ≡ true) ⊎ IsUse (kind ref))
      → IsWalk k (next kind referrers ref) (visited ++ ref ∷ []) entered visited1 used1
      → IsWalk k refs visited1 used1 visited2 used2
      → IsWalk k (ref ∷ refs) visited used visited2 used2
  IsWalk-enter k ref refs visited visited1 visited2 used entered used1 used2 s u o v w = record {
    kept = λ x m. w.kept x (v.kept x (ground (arith, member-add x ref visited)));
    stays = λ e. w.stays (v.stays (s e));
    found = λ e. elim (w.found e) [
      | inr (t, y, n, l, i) ↦ inr (t, y, ground arith, l, i)
      | inl e1 ↦ elim (v.found e1) [
        | inr (t, y, n, l, i) ↦ inr (ref, y, ground (arith, ==_iff ref ref), step n l, i)
        | inl e2 ↦ elim (o e2) [
          | inl q ↦ inl q
          | inr i ↦ inr (ref, ref, ground (arith, ==_iff ref ref), here, i)
        ]
      ]
    ];
    covered = λ e x m. ground (
      arith,
      w.covered e x,
      w.kept ref,
      v.kept ref,
      member-add ref ref visited,
      ==_iff x ref,
      ==_iff ref ref,
    );
    done = λ e x m.
        let e1 : used1 ≡ false = elim (Bool-cases used1) [ inl t ↦ cc (w.stays t) | inr f ↦ f ] in
        elim (w.done e x m) [
          | inr d ↦ inr d
          | inl m1 ↦ elim (v.done e1 x m1) [
            | inr d ↦
                inr (record { unused = d.unused; followed = λ y n. w.kept y (d.followed y n) })
            | inl m2 ↦ elim (Bool-cases (member x visited)) [
              | inl n ↦ inl n
              | inr n ↦
                  let q : ref ≡ x = ground (arith, member-add x ref visited, ==_iff x ref) in
                  inr (
                    subst (λ z. IsDone visited2 z) q
                      (record {
                        unused = λ i. cc (v.stays (u i));
                        followed = λ y p. w.kept y (v.covered e1 y p);
                      }))
            ]
          ]
        ];
    below = w.below;
  }

  IsWalk-statement :
      (k ref : ℕ) (refs visited : List ℕ) (used : Bool)
      → IsUse (kind ref)
      → Below k (visited ++ ref ∷ [])
      → IsWalk k (ref ∷ refs) visited used (visited ++ ref ∷ []) true
  IsWalk-statement k ref refs visited used i b = record {
    kept = λ x m. ground (arith, member-add x ref visited);
    stays = λ e. refl;
    found = λ e. inr (ref, ref, ground (arith, ==_iff ref ref), here, i);
    covered = λ e. cc;
    done = λ e. cc;
    below = b;
  }

  abbrev pub Walked : ℕ → ℕ → List ℕ → List ℕ → Bool → Type 0
  Walked k fuel refs visited used =
      (visited' : List ℕ) × (used' : Bool) × (walk_refs kind referrers fuel refs visited used
        ≡ some (visited', used'))
      × IsWalk k refs visited used visited' used'

  not-IsUse : (ref : ℕ) (u : Use) → kind ref ≡ u → (IsUse u → ⊥) → IsUse (kind ref) → ⊥
  not-IsUse ref u e n i = n (subst IsUse e i)

  Inner : ℕ → ℕ → ℕ → List ℕ → Bool → Type 0
  Inner k fuel ref visited used = Walked k fuel (next kind referrers ref) (visited ++ ref ∷ []) used

  Rest : ℕ → ℕ → ℕ → List ℕ → List ℕ → Type 0
  Rest k fuel ref refs visited =
      (visited1 : List ℕ) (used1 : Bool)
      → ((x : ℕ) → member x (visited ++ ref ∷ []) ≡ true → member x visited1 ≡ true)
      → Below k visited1
      → Walked k (suc fuel) refs visited1 used1

  -- An instruction whose referrers are walked; `whole` is what the step computes from the two walks.
  passing-Walked :
      (k fuel ref : ℕ) (refs visited : List ℕ) (used : Bool)
      → (IsUse (kind ref) → ⊥)
      → Inner k fuel ref visited used
      → Rest k fuel ref refs visited
      → ((v1 : List ℕ) (u1 : Bool) (v2 : List ℕ) (u2 : Bool)
          → walk_refs kind referrers fuel (next kind referrers ref) (visited ++ ref ∷ []) used
            ≡ some (v1, u1)
          → walk_refs kind referrers (suc fuel) refs v1 u1 ≡ some (v2, u2)
          → walk_refs kind referrers (suc fuel) (ref ∷ refs) visited used ≡ some (v2, u2))
      → Walked k (suc fuel) (ref ∷ refs) visited used
  unfolding Inner Rest
  passing-Walked k fuel ref refs visited used n (v1, u1, p, w) rest whole =
      let (v2, u2, q, w') = rest v1 u1 w.kept w.below in
      (
        v2,
        u2,
        whole v1 u1 v2 u2 p q,
        IsWalk-enter k ref refs visited v1 v2 used used u1 u2 (λ x. x) (λ i. absurd (n i))
            (λ x. inl x) w w',
      )

  -- An instruction whose referrers are not walked.
  reading-Walked :
      (k fuel ref : ℕ) (refs visited : List ℕ) (used entered : Bool)
      → next kind referrers ref ≡ []
      → (used ≡ true → entered ≡ true)
      → (IsUse (kind ref) → entered ≡ true)
      → (entered ≡ true → (used ≡ true) ⊎ IsUse (kind ref))
      → Below k (visited ++ ref ∷ [])
      → Rest k fuel ref refs visited
      → ((v2 : List ℕ) (u2 : Bool)
          → walk_refs kind referrers (suc fuel) refs (visited ++ ref ∷ []) entered ≡ some (v2, u2)
          → walk_refs kind referrers (suc fuel) (ref ∷ refs) visited used ≡ some (v2, u2))
      → Walked k (suc fuel) (ref ∷ refs) visited used
  unfolding Rest
  reading-Walked k fuel ref refs visited used entered e s u o b rest whole =
      let (v2, u2, q, w) = rest (visited ++ ref ∷ []) entered (λ x m. m) b in
      (
        v2,
        u2,
        whole v2 u2 q,
        IsWalk-enter k ref refs visited (visited ++ ref ∷ []) v2 used entered entered u2 s u o
            (subst (λ l. IsWalk k l (visited ++ ref ∷ []) entered (visited ++ ref ∷ []) entered)
              (sym e) (IsWalk-nil k (visited ++ ref ∷ []) entered b))
            w,
      )

  entered-Walked :
      (k fuel ref : ℕ) (refs visited : List ℕ) (used : Bool) (u : Use)
      → kind ref ≡ u
      → member ref visited ≡ false
      → Below k (visited ++ ref ∷ [])
      → Inner k fuel ref visited used
      → Rest k fuel ref refs visited
      → Walked k (suc fuel) (ref ∷ refs) visited used
  unfolding walk_refs
  entered-Walked k fuel ref refs visited used phi e m b inner rest =
      passing-Walked k fuel ref refs visited used (not-IsUse ref phi e (λ j. elim j [ ])) inner rest
        (λ v1 u1 v2 u2 p q. ground (arith, p, q))
  entered-Walked k fuel ref refs visited used sigma e m b inner rest =
      passing-Walked k fuel ref refs visited used (not-IsUse ref sigma e (λ j. elim j [ ])) inner
        rest (λ v1 u1 v2 u2 p q. ground (arith, p, q))
  entered-Walked k fuel ref refs visited used append e m b inner rest =
      passing-Walked k fuel ref refs visited used (not-IsUse ref append e (λ j. elim j [ ])) inner
        rest (λ v1 u1 v2 u2 p q. ground (arith, p, q))
  entered-Walked k fuel ref refs visited used debug_ref e m b inner rest =
      reading-Walked k fuel ref refs visited used used (rw (e, next) refl) (λ x. x)
        (λ i. absurd (not-IsUse ref debug_ref e (λ j. elim j [ ]) i)) (λ x. inl x) b rest
        (λ v2 u2 q. ground (arith, q))
  entered-Walked k fuel ref refs visited used other_value e m b inner rest =
      reading-Walked k fuel ref refs visited used true (rw (e, next) refl) (λ x. refl) (λ i. refl)
        (λ x. inr (rw e by_value)) b rest (λ v2 u2 q. ground (arith, q))
  entered-Walked k fuel ref refs visited used statement e m b inner rest = (
    visited ++ ref ∷ [],
    true,
    ground arith,
    IsWalk-statement k ref refs visited used (rw e by_statement) b,
  )

  -- With more fuel than there are instructions left to visit, the walk ends.
  pub walk_refs-Walked :
      (k fuel : ℕ) (refs visited : List ℕ) (used : Bool)
      → ((x : ℕ) → x < k → Below k (next kind referrers x))
      → unseen k visited < fuel
      → Below k refs
      → Below k visited
      → Walked k fuel refs visited used
  unfolding walk_refs Inner Rest
  walk_refs-Walked k zero refs visited used nb h br bv = absurd (omega arith)
  walk_refs-Walked k (suc fuel) [] visited used nb h br bv =
      (visited, used, refl, IsWalk-nil k visited used bv)
  walk_refs-Walked k (suc fuel) (ref ∷ refs) visited used nb h br bv =
      elim (Bool-cases (member ref visited)) [
        | inl m ↦
            let (v, u, e, w) =
              walk_refs-Walked k (suc fuel) refs visited used nb h (λ x n. br x (ground arith))
                bv in
            (v, u, ground (arith, e), IsWalk-skip k ref refs visited v used u m w)
        | inr m ↦
            let lt = br ref (ground (arith, ==_iff ref ref)) in
            let b : Below k (visited ++ ref ∷ []) =
              λ x n. ground (arith, member-add x ref visited, ==_iff x ref, bv x) in
            let less = unseen-add k ref visited lt m in
            entered-Walked k fuel ref refs visited used (kind ref) refl m b
              (walk_refs-Walked k fuel (next kind referrers ref) (visited ++ ref ∷ []) used nb
                (omega arith) (nb ref lt) b)
              (λ v1 u1 kept b1.
                walk_refs-Walked k (suc fuel) refs v1 u1 nb
                  (omega (arith, unseen_mono k (visited ++ ref ∷ []) v1 kept))
                  (λ x n. br x (ground arith)) b1)
      ]
