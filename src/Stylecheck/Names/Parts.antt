-- ===== src/Stylecheck/Names/Parts.antt =====
-- Parts of a list of runes: what `copy` and the slices of `lintName` (stylecheck/names.go) keep.
use go_tools.Common.{
  ◌≡◌, refl, ap, ◌∙◌, some, [], ◌∷◌, ◌++◌, map, ℕ, zero, suc, ◌+◌, ◌-◌, ◌≤◌, ◌<◌, arith, length,
  get_elem?, Name,
}
use go_tools.Stylecheck.Names.{take, drop, rune_slice}

pub take-drop : (n : ℕ) (s : Name) → take n s ++ drop n s ≡ s
take-drop zero s = refl
take-drop (suc n) [] = refl
take-drop (suc n) (c ∷ s) = ap (λ t. c ∷ t) (take-drop n s)

pub drop-add : (a b : ℕ) (s : Name) → drop (a + b) s ≡ drop b (drop a s)
drop-add zero b s = ap (λ n. drop n s) (omega arith)
drop-add (suc a) b [] =
    ap (λ n. drop n []) {x = suc a + b} {y = suc (a + b)} (omega arith) ∙ drop-nil b
  where
    drop-nil : (b : ℕ) → [] ≡ drop b []
    drop-nil zero = refl
    drop-nil (suc b) = refl
drop-add (suc a) b (c ∷ s) =
    ap (λ n. drop n (c ∷ s)) {x = suc a + b} {y = suc (a + b)} (omega arith) ∙ drop-add a b s

pub length-take : (n : ℕ) (s : Name) → n ≤ length s → length (take n s) ≡ n
length-take zero s h = refl
length-take (suc n) [] h = absurd (omega arith)
length-take (suc n) (c ∷ s) h = ap suc (length-take n s (omega arith))

pub length-drop : (n : ℕ) (s : Name) → length (drop n s) ≡ length s - n
length-drop zero s = omega arith
length-drop (suc n) [] = omega arith
length-drop (suc n) (c ∷ s) = omega (arith, length-drop n s)

pub length-map : (f : ℕ → ℕ) (s : Name) → length (map f s) ≡ length s
length-map f [] = refl
length-map f (c ∷ s) = ap suc (length-map f s)

pub get_elem?-lt : (s : Name) (i : ℕ) → i < length s → (c : ℕ) × (get_elem? s i ≡ some c)
get_elem?-lt [] i h = absurd (omega arith)
get_elem?-lt (c ∷ s) zero h = (c, refl)
get_elem?-lt (c ∷ s) (suc i) h = get_elem?-lt s i (omega arith)

pub drop-get_elem? : (s : Name) (i c : ℕ) → get_elem? s i ≡ some c → drop i s ≡ c ∷ drop (suc i) s
drop-get_elem? [] i c e = cc
drop-get_elem? (d ∷ s) zero c e = cc
drop-get_elem? (d ∷ s) (suc i) c e = drop-get_elem? s i c e

pub rune_slice_lem :
    (a b : ℕ) (s : Name) → a ≤ b → b ≤ length s → rune_slice a b s ≡ some (take (b - a) (drop a s))
unfolding rune_slice
rune_slice_lem a b s h k = ground arith
