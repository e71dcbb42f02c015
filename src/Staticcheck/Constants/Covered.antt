-- ===== src/Staticcheck/Constants/Covered.antt =====
-- What a run of `consts` (staticcheck/lint.go) adds to its arguments `out` and `visitedPhis`.
use go_tools.Common.{
  ◌≡◌, ◌⊎◌, inl, inr, ap, ◌∙◌, Option, none, some, true, List, [], ◌∷◌, ◌++◌, ℕ, arith, ◌==◌,
  ==_iff, Bool-cases, In,
}
use go_tools.Common.Search.{member, member-add, step, Below}
use go_tools.Staticcheck.Constants.{Kind, phi, const, convert, sources, Flows, Escapes}

module _ {V : Type 0} (kind : ℕ → Kind V) where
  -- All constants that come to the value over values that are not visited phis are in `out`.
  pub data Covered (out : List (Option V)) (visited : List ℕ) : ℕ → Type 0 where
    seen : {x : ℕ} → member x visited ≡ true → Covered out visited x
    held : {x : ℕ} {c : Option V} → kind x ≡ const c → In c out → Covered out visited x
    through : {x y : ℕ} → kind x ≡ convert y → Covered out visited y → Covered out visited x

  pub Covered-mono :
      (out out' : List (Option V)) (visited visited' : List ℕ)
      → ((c : Option V) → In c out → In c out')
      → ((x : ℕ) → member x visited ≡ true → member x visited' ≡ true)
      → {x : ℕ} → Covered out visited x
      → Covered out' visited' x
  Covered-mono out out' visited visited' f g (seen m) = seen (g _ m)
  Covered-mono out out' visited visited' f g (held e m) = held e (f _ m)
  Covered-mono out out' visited visited' f g (through e c) =
      through e (Covered-mono out out' visited visited' f g c)

  -- A visited phi whose operands are covered.
  pub record IsClosed (out : List (Option V)) (visited : List ℕ) (x : ℕ) : Type 0 where
    pub vals : List ℕ
    pub is_phi : kind x ≡ phi vals
    pub all : (y : ℕ) → member y vals ≡ true → Covered out visited y

  IsClosed-mono :
      (out out' : List (Option V)) (visited visited' : List ℕ) (x : ℕ)
      → ((c : Option V) → In c out → In c out')
      → ((y : ℕ) → member y visited ≡ true → member y visited' ≡ true)
      → IsClosed out visited x
      → IsClosed out' visited' x
  IsClosed-mono out out' visited visited' x f g c = record {
    vals = c.vals;
    is_phi = c.is_phi;
    all = λ y m. Covered-mono out out' visited visited' f g (c.all y m);
  }

  -- What the values `vals` add to the constants and the visited phis.
  pub record Collects (k : ℕ) (vals : List ℕ) (out : List (Option V)) (visited : List ℕ)
      (out' : List (Option V)) (visited' : List ℕ) : Type 0 where
    pub kept : (c : Option V) → In c out → In c out'
    pub phis : (x : ℕ) → member x visited ≡ true → member x visited' ≡ true
    pub drawn :
        (c : Option V) → In c out' → In c out ⊎ ((t : ℕ) × (member t vals ≡ true) × Flows kind c t)
    pub closed :
        (x : ℕ) → member x visited' ≡ true → (member x visited ≡ true) ⊎ IsClosed out' visited' x
    pub covered : (t : ℕ) → member t vals ≡ true → Covered out' visited' t
    pub below : Below k visited'

  abbrev pub Meets :
      ℕ → List ℕ → List (Option V) → List ℕ → Option (List (Option V) × List ℕ) → Type 0
  Meets k vals out visited none = (t : ℕ) × (member t vals ≡ true) × Escapes kind t
  Meets k vals out visited (some (out', visited')) = Collects k vals out visited out' visited'

  pub Meets-nil :
      (k : ℕ) (out : List (Option V)) (visited : List ℕ)
      → Below k visited
      → Collects k [] out visited out visited
  Meets-nil k out visited b = record {
    kept = λ c m. m;
    phis = λ x m. m;
    drawn = λ c m. inl m;
    closed = λ x m. inl m;
    covered = λ t m. cc;
    below = b;
  }

  Collects-cons :
      (k v : ℕ) (vals : List ℕ) (out out1 out2 : List (Option V))
      (visited visited1 visited2 : List ℕ)
      → Collects k (v ∷ []) out visited out1 visited1
      → Collects k vals out1 visited1 out2 visited2
      → Collects k (v ∷ vals) out visited out2 visited2
  Collects-cons k v vals out out1 out2 visited visited1 visited2 f g = record {
    kept = λ c m. g.kept c (f.kept c m);
    phis = λ x m. g.phis x (f.phis x m);
    drawn = λ c m. elim (g.drawn c m) [
      | inr (t, n, l) ↦ inr (t, ground arith, l)
      | inl m1 ↦ elim (f.drawn c m1) [ inl o ↦ inl o | inr (t, n, l) ↦ inr (t, ground arith, l) ]
    ];
    closed = λ x m. elim (g.closed x m) [
      | inr c ↦ inr c
      | inl m1 ↦ elim (f.closed x m1) [
        | inl o ↦ inl o
        | inr c ↦ inr (IsClosed-mono out1 out2 visited1 visited2 x g.kept g.phis c)
      ]
    ];
    covered = λ t m. elim (Bool-cases (t == v)) [
      | inl e ↦ Covered-mono out1 out2 visited1 visited2 g.kept g.phis (f.covered t (ground arith))
      | inr e ↦ g.covered t (ground arith)
    ];
    below = g.below;
  }

  pub Meets-cons :
      (k v : ℕ) (vals : List ℕ) (out out1 : List (Option V)) (visited visited1 : List ℕ)
      (a : Option (List (Option V) × List ℕ))
      → Collects k (v ∷ []) out visited out1 visited1
      → Meets k vals out1 visited1 a
      → Meets k (v ∷ vals) out visited a
  Meets-cons k v vals out out1 visited visited1 none f (t, m, e) = (t, ground arith, e)
  Meets-cons k v vals out out1 visited visited1 (some (out2, visited2)) f g =
      Collects-cons k v vals out out1 out2 visited visited1 visited2 f g

  -- The call for a phi that is not visited, from the loop over its operands.
  pub Collects-phi :
      (k v : ℕ) (vals : List ℕ) (out out' : List (Option V)) (visited visited' : List ℕ)
      → kind v ≡ phi vals
      → Collects k vals out (visited ++ v ∷ []) out' visited'
      → Collects k (v ∷ []) out visited out' visited'
  Collects-phi k v vals out out' visited visited' e g = record {
    kept = g.kept;
    phis = λ x m. g.phis x (ground (arith, member-add x v visited));
    drawn = λ c m. elim (g.drawn c m) [
      | inl o ↦ inl o
      | inr (t, n, (y, l, q)) ↦
          inr (v, ground (arith, ==_iff v v), (y, step (rw (e, sources) n) l, q))
    ];
    closed = λ x m. elim (g.closed x m) [
      | inr c ↦ inr c
      | inl m1 ↦ elim (Bool-cases (member x visited)) [
        | inl o ↦ inl o
        | inr n ↦
            let q : x ≡ v = ground (arith, member-add x v visited, ==_iff x v) in
            inr (record { vals = vals; is_phi = ap kind q ∙ e; all = g.covered })
      ]
    ];
    covered = λ t m. seen (g.phis t (ground (arith, member-add t v visited)));
    below = g.below;
  }
