-- ===== src/Unused/Report/Exact.antt =====
-- What `Check` of unused/unused.go reports, against the nodes that the roots lead to.
use go_tools.Common.{
  ℕ, ◌<◌, ◌≡◌, refl, ◌↔◌, inl, inr, true, false, Option, none, some, List, [], ◌∷◌, ==_iff,
  Bool-cases, arith, Any, Name, names_equal, bytes, not, ◌||◌, Bool, if◌then◌else◌,
}
use go_tools.Common.Search.{member, Below, Leads}
use go_tools.Unused.World.{World, Object}
use go_tools.Unused.Graph.{Node, Graph}
use go_tools.Unused.Roots.{Checker}
use go_tools.Unused.Marking.{uses_of, mark_nodes_quiet}
use go_tools.Unused.Marking.Exact.{mark_nodes_used_exact}
use go_tools.Unused.Report.{File, is_generated, generated_file, is_reported, report, report_graph}

-- The first file of the name begins with a comment of generated code.
pub data IsGenerated (filename : Name) : List File → Type 0 where
  generated_here :
      {f : File} {fs : List File} (comment : Name) (comments : List Name)
      → names_equal f.filename filename ≡ true
      → f.comments ≡ comment ∷ comments
      → is_generated comment ≡ true
      → IsGenerated filename (f ∷ fs)
  generated_later :
      {f : File} {fs : List File}
      → names_equal f.filename filename ≡ false
      → IsGenerated filename fs
      → IsGenerated filename (f ∷ fs)

generated_file-IsGenerated :
    (filename : Name) (fs : List File) → generated_file filename fs ≡ true → IsGenerated filename fs
unfolding generated_file
generated_file-IsGenerated filename [] h = cc
generated_file-IsGenerated filename (f ∷ fs) h =
    elim (Bool-cases (names_equal f.filename filename)) [
      | inr n ↦ generated_later n (generated_file-IsGenerated filename fs (ground (arith)))
      | inl e ↦ first e f.comments refl (ground (arith, e))
    ]
  where
    first :
        names_equal f.filename filename ≡ true
        → (cs : List Name) → f.comments ≡ cs
        → elim cs as (λ _. Bool) [ [] ↦ false | comment ∷ _ ↦ is_generated comment ] ≡ true
        → IsGenerated filename (f ∷ fs)
    first e [] q g = absurd (ground arith)
    first e (comment ∷ comments) q g = generated_here comment comments e q g

IsGenerated-generated_file :
    (filename : Name) (fs : List File) → IsGenerated filename fs → generated_file filename fs ≡ true
unfolding generated_file
IsGenerated-generated_file filename fs (generated_here comment comments e q g) = rw (e, q) g
IsGenerated-generated_file filename fs (generated_later n i) =
    rw n (IsGenerated-generated_file filename _ i)

module _ (w : World) (base : Name → Name) (files : ℕ → List File) (initial : List ℕ) where
  -- The object lies in a file of an initial package, neither one of cgo nor generated.
  pub record IsOurs (x : ℕ) : Type 0 where
    pub o : Object
    pub found : w.object x ≡ some o
    pub initial_package : member o.pkg initial ≡ true
    pub located : names_equal o.filename [] ≡ false
    pub by_go : names_equal (base o.filename) (bytes "C") ≡ false
    pub by_hand : IsGenerated o.filename (files o.pkg) → ⊥

  report_tests :
      (a b c g : Bool)
      → (if not a then false else if b || c then false else not g) ≡ true
      → (a ≡ true) × (b ≡ false) × (c ≡ false) × (g ≡ false)
  report_tests a b c g h = ground arith

  object-IsOurs :
      (x : ℕ) (o : Object)
      → w.object x ≡ some o
      → (if not (member o.pkg initial)
          then false
          else if names_equal o.filename [] || names_equal (base o.filename) (bytes "C")
          then false
          else not (generated_file o.filename (files o.pkg)))
        ≡ true
      → IsOurs x
  object-IsOurs x o e h =
      let (a, b, c, g) = report_tests _ _ _ _ h in
      record {
        o = o;
        found = e;
        initial_package = a;
        located = b;
        by_go = c;
        by_hand = λ i. cc (g, IsGenerated-generated_file o.filename (files o.pkg) i);
      }

  by_hand_lem :
      (o : Object)
      → (IsGenerated o.filename (files o.pkg) → ⊥)
      → generated_file o.filename (files o.pkg) ≡ false
  by_hand_lem o h = elim (Bool-cases (generated_file o.filename (files o.pkg))) [
    | inl e ↦ absurd (h (generated_file-IsGenerated o.filename (files o.pkg) e))
    | inr e ↦ e
  ]

  is_reported-IsOurs : (x : ℕ) → (is_reported w base files initial x ≡ true) ↔ IsOurs x
  unfolding is_reported
  is_reported-IsOurs x = (
    by_object (w.object x) refl,
    λ h. ground (arith, h.found, h.initial_package, h.located, h.by_go, by_hand_lem h.o h.by_hand),
  )
    where
      by_object :
          (m : Option Object)
          → w.object x ≡ m
          → is_reported w base files initial x ≡ true
          → IsOurs x
      by_object none e h = absurd (ground (arith, e))
      by_object (some o) e h = object-IsOurs x o e (ground (arith, e))

  module _ (used : List ℕ) (x : ℕ) where
    -- A node of the object that is neither used nor quiet.
    abbrev pub IsLeft : Node → Type 0
    IsLeft n = (n.obj ≡ x) × (member x used ≡ false) × (n.quiet ≡ false)

    report-Any :
        (nodes : List Node)
        → (member x (report w base files initial used nodes) ≡ true)
          ↔ ((is_reported w base files initial x ≡ true) × Any IsLeft nodes)
    unfolding report
    report-Any [] = (λ m. cc, λ p. absurd p.1)
    report-Any (n ∷ nodes) = ground (arith, ==_iff x n.obj, report-Any nodes)

  -- The object has a node that is not quiet, no root leads to it, and it lies where `Check` reports.
  pub record IsUnused (g quieted : Graph) (x : ℕ) : Type 0 where
    pub ours : IsOurs x
    pub listed : Any (λ n. (n.obj ≡ x) × (n.quiet ≡ false)) quieted.nodes
    pub unreached : ((t : ℕ) × (member t g.roots ≡ true) × Leads (uses_of g.nodes) t x) → ⊥

  with_used :
      (used : List ℕ) (x : ℕ) (nodes : List Node)
      → Any (IsLeft used x) nodes
        ↔ (Any (λ n. (n.obj ≡ x) × (n.quiet ≡ false)) nodes × (member x used ≡ false))
  with_used used x [] = (absurd, λ p. p.0)
  with_used used x (n ∷ nodes) = ground (arith, with_used used x nodes)

  -- For identities below `size`, and where the marking of quiet nodes does not panic, `Check` ends from
  -- the marking on. The quiet nodes are those marked by the set of all that the roots lead to, and
  -- reported are exactly the objects that have a node which is not quiet, that no root leads to, and
  -- that lie in a file of an initial package that has a name, is not one of cgo, and is not generated: its
  -- first comment does not say so.
  pub report_graph_exact :
      (c : Checker) (g : Graph)
      → ((x : ℕ) → x < w.size → Below w.size (uses_of g.nodes x))
      → Below w.size g.roots
      → ((used : List ℕ) → (g' : Graph) × (mark_nodes_quiet w c used g ≡ some g'))
      → (out : List ℕ) × (used : List ℕ) × (quieted : Graph) × (report_graph w base files initial c
            g
          ≡ some out)
        × ((x : ℕ)
            → (member x used ≡ true)
              ↔ ((t : ℕ) × (member t g.roots ≡ true) × Leads (uses_of g.nodes) t x))
        × (mark_nodes_quiet w c used g ≡ some quieted)
        × ((x : ℕ) → (member x out ≡ true) ↔ IsUnused g quieted x)
  unfolding report_graph
  report_graph_exact c g u r q =
      let (used, e, exact) = mark_nodes_used_exact g.nodes w.size g.roots u r in
      let (g', f) = q used in
      (
        report w base files initial used g'.nodes,
        used,
        g',
        rw (e, f) refl,
        exact,
        f,
        λ x. (
          λ m.
              let (rep, left) = (report-Any used x g'.nodes).0 m in
              let (listed, unused) = (with_used used x g'.nodes).0 left in
              record {
                ours = (is_reported-IsOurs x).0 rep;
                listed = listed;
                unreached = λ p. cc (unused, (exact x).1 p);
              },
          λ i. (report-Any used x g'.nodes).1 (
            (is_reported-IsOurs x).1 i.ours,
            (with_used used x g'.nodes).1 (i.listed, unmarked used x i.unreached (exact x).0),
          ),
        ),
      )
    where
      unmarked :
          (used : List ℕ) (x : ℕ)
          → (((t : ℕ) × (member t g.roots ≡ true) × Leads (uses_of g.nodes) t x) → ⊥)
          → (member x used ≡ true
              → (t : ℕ) × (member t g.roots ≡ true) × Leads (uses_of g.nodes) t x)
          → member x used ≡ false
      unmarked used x away back = elim (Bool-cases (member x used)) [
        | inl m ↦ absurd (away (back m))
        | inr m ↦ m
      ]
