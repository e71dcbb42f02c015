-- ===== src/Vrp/Graph/Arrows.antt =====
-- `AddEdge` and the loop of `BuildGraph` that calls it (staticcheck/vrp/vrp.go) against a list of
-- arrows between values and constraints.
use go_tools.Common.{
  ℕ, zero, suc, ◌+◌, ◌≤◌, ◌<◌, ◌≡◌, ◌⊎◌, inl, inr, refl, sym, ap, subst, Bool, true, false, Option,
  some, none, ◌>>=◌, List, [], ◌∷◌, ◌++◌, if◌then◌else◌, ◌==◌, ==_iff, Bool-cases, eq_of_some,
  arith, length, get_elem?,
}
use go_tools.Vrp.Constraint.{Constraint, result, operands, futures}
use go_tools.Vrp.Range.{Value}
use go_tools.Vrp.Graph.{Node, value, constraint, same_node, Edge, vertex_of, add_vertex}

pub record Arrow : Type 0 where
  pub from : Node
  pub to : Node
  pub control : Bool

abbrev pub arrows_to : Node → Bool → List Value → List Arrow
arrows_to n control [] = []
arrows_to n control (v ∷ vs) =
    record { from = value v; to = n; control = control } ∷ arrows_to n control vs

abbrev pub listed : Option (List Value) → List Value
listed none = []
listed (some vs) = vs

-- What a constraint depends on, at once or when it is resolved, and the value that it defines.
abbrev pub arrows_of : ℕ → Constraint → List Arrow
arrows_of i c =
    (arrows_to (constraint i) false (operands c)
      ++ arrows_to (constraint i) true (listed (futures c)))
    ++ record { from = constraint i; to = value (result c); control = false } ∷ []

abbrev pub arrows : ℕ → List Constraint → List Arrow
arrows i [] = []
arrows i (c ∷ cs) = arrows_of i c ++ arrows (suc i) cs

-- The edges, with the nodes of their vertices.
abbrev pub ends : List Node → List Edge → Option (List Arrow)
ends ns [] = some []
ends ns (e ∷ es) = do
  a ← get_elem? ns e.from
  b ← get_elem? ns e.to
  rest ← ends ns es
  some (record { from = a; to = b; control = e.control } ∷ rest)

-- No node has two vertices.
abbrev pub IsMap : List Node → Type 0
IsMap ns = (i : ℕ) (n : Node) → get_elem? ns i ≡ some n → vertex_of ns n ≡ i

eq_of_same_node : (m n : Node) → same_node m n ≡ true → m ≡ n
unfolding same_node
eq_of_same_node (value a) (value b) h = ap value (ground (arith, ==_iff a b))
eq_of_same_node (value a) (constraint b) h = cc
eq_of_same_node (constraint a) (value b) h = cc
eq_of_same_node (constraint a) (constraint b) h = ap constraint (ground (arith, ==_iff a b))

same_node_refl : (n : Node) → same_node n n ≡ true
unfolding same_node
same_node_refl (value a) = ground (arith, ==_iff a a)
same_node_refl (constraint a) = ground (arith, ==_iff a a)

vertex_of-le : (ns : List Node) (n : Node) → vertex_of ns n ≤ length ns
unfolding vertex_of
vertex_of-le [] n = omega arith
vertex_of-le (m ∷ ns) n = ground (arith, vertex_of-le ns n)

get_elem?-vertex_of :
    (ns : List Node) (n : Node)
    → vertex_of ns n < length ns
    → get_elem? ns (vertex_of ns n) ≡ some n
unfolding vertex_of
get_elem?-vertex_of [] n h = absurd (omega arith)
get_elem?-vertex_of (m ∷ ns) n h = elim (Bool-cases (same_node m n)) [
  | inl e ↦ rw (e, eq_of_same_node m n e) refl
  | inr e ↦ rw e (get_elem?-vertex_of ns n (ground arith))
]

get_elem?-append :
    (ns ms : List Node) (i : ℕ) (n : Node)
    → get_elem? ns i ≡ some n
    → get_elem? (ns ++ ms) i ≡ some n
get_elem?-append [] ms i n h = cc
get_elem?-append (m ∷ ns) ms zero n h = h
get_elem?-append (m ∷ ns) ms (suc i) n h = get_elem?-append ns ms i n h

vertex_of-append :
    (ns ms : List Node) (n : Node)
    → vertex_of (ns ++ ms) n
      ≡ (if vertex_of ns n == length ns then length ns + vertex_of ms n else vertex_of ns n)
unfolding vertex_of
vertex_of-append [] ms n = ground arith
vertex_of-append (m ∷ ns) ms n =
    ground (arith, vertex_of-append ns ms n, ==_iff (vertex_of ns n) (length ns), vertex_of-le ns n)

get_elem?-length : (ns ms : List Node) (n : Node) → get_elem? (ns ++ n ∷ ms) (length ns) ≡ some n
get_elem?-length [] ms n = refl
get_elem?-length (m ∷ ns) ms n = get_elem?-length ns ms n

pub get_elem?-lt : (ns : List Node) (i : ℕ) (n : Node) → get_elem? ns i ≡ some n → i < length ns
get_elem?-lt [] i n h = cc
get_elem?-lt (m ∷ ns) zero n h = omega arith
get_elem?-lt (m ∷ ns) (suc i) n h = omega (arith, get_elem?-lt ns i n h)

get_elem?-snoc :
    (ns : List Node) (m n : Node) (i : ℕ)
    → get_elem? (ns ++ m ∷ []) i ≡ some n
    → (get_elem? ns i ≡ some n) ⊎ ((i ≡ length ns) × (m ≡ n))
get_elem?-snoc [] m n zero h = inr (refl, eq_of_some h)
get_elem?-snoc [] m n (suc i) h = cc
get_elem?-snoc (x ∷ ns) m n zero h = inl h
get_elem?-snoc (x ∷ ns) m n (suc i) h = elim (get_elem?-snoc ns m n i h) [
  | inl e ↦ inl e
  | inr (e, q) ↦ inr (ap suc e, q)
]

vertex_of-head : (n : Node) → vertex_of (n ∷ []) n ≡ 0
unfolding vertex_of
vertex_of-head n = rw (same_node_refl n) refl

add_vertex-new :
    (ns : List Node) (n : Node) → vertex_of ns n ≡ length ns → add_vertex ns n ≡ ns ++ n ∷ []
unfolding add_vertex
add_vertex-new ns n e = ground (arith, ==_iff (vertex_of ns n) (length ns))

add_vertex-old : (ns : List Node) (n : Node) → vertex_of ns n < length ns → add_vertex ns n ≡ ns
unfolding add_vertex
add_vertex-old ns n e = ground (arith, ==_iff (vertex_of ns n) (length ns))

snoc-IsMap :
    (ns : List Node) (n : Node) → vertex_of ns n ≡ length ns → IsMap ns → IsMap (ns ++ n ∷ [])
snoc-IsMap ns n e h i m q = elim (get_elem?-snoc ns n m i q) [
  | inl g ↦ ground (
    arith,
    vertex_of-append ns (n ∷ []) m,
    h i m g,
    get_elem?-lt ns i m g,
    ==_iff (vertex_of ns m) (length ns),
  )
  | inr (g, r) ↦
      subst (λ u. vertex_of (ns ++ n ∷ []) u ≡ i) r
        (ground (
          arith,
          vertex_of-append ns (n ∷ []) n,
          vertex_of-head n,
          g,
          e,
          ==_iff (vertex_of ns n) (length ns),
        ))
]

-- What `add_vertex` makes of the keys.
pub record IsAdded (n : Node) (ns ns' : List Node) : Type 0 where
  pub is_map : IsMap ns'
  pub found : get_elem? ns' (vertex_of ns' n) ≡ some n
  pub kept : (i : ℕ) (m : Node) → get_elem? ns i ≡ some m → get_elem? ns' i ≡ some m

pub add_vertex-IsAdded : (ns : List Node) (n : Node) → IsMap ns → IsAdded n ns (add_vertex ns n)
add_vertex-IsAdded ns n h = elim (Bool-cases (vertex_of ns n == length ns)) [
  | inl q ↦
      let e : vertex_of ns n ≡ length ns = ground (arith, ==_iff (vertex_of ns n) (length ns)) in
      subst (λ ns'. IsAdded n ns ns') (sym (add_vertex-new ns n e))
        (record {
          is_map = snoc-IsMap ns n e h;
          found =
              let f = snoc-IsMap ns n e h (length ns) n (get_elem?-length ns [] n) in
              rw f (get_elem?-length ns [] n);
          kept = λ i m g. get_elem?-append ns (n ∷ []) i m g;
        })
  | inr q ↦
      let e : vertex_of ns n < length ns =
        ground (arith, ==_iff (vertex_of ns n) (length ns), vertex_of-le ns n) in
      subst (λ ns'. IsAdded n ns ns') (sym (add_vertex-old ns n e))
        (record { is_map = h; found = get_elem?-vertex_of ns n e; kept = λ i m g. g })
]
