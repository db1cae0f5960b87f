-- ===== src/Base/Prefixes.antt =====
-- `strings.CutPrefix` and `strings.HasPrefix` against concatenation.
use mathlib.Core.Path.{◌≡◌, refl}
use mathlib.Core.Logic.{◌⊎◌, inl, inr}
use mathlib.Core.Bool.{true, false}
use mathlib.Core.Option.{none, some}
use mathlib.Core.List.{[], ◌∷◌, ◌++◌}
use native.Mathlib.Omega.{arith}
use bergrebase.Base.Tests.{nat_eq, Option-cases}
use bergrebase.Base.Text.{Bytes, cut_prefix, has_prefix}

pub cut_prefix-append : (p r : Bytes) → cut_prefix (p ++ r) p ≡ some r
unfolding cut_prefix
cut_prefix-append [] r = refl
cut_prefix-append (c ∷ p) r = ground (arith, cut_prefix-append p r)

-- The rest stands behind the prefix.
pub append-cut_prefix : (s p r : Bytes) → cut_prefix s p ≡ some r → s ≡ p ++ r
unfolding cut_prefix
append-cut_prefix s [] r h = ground arith
append-cut_prefix [] (c ∷ p) r h = absurd (cc)
append-cut_prefix (d ∷ s) (c ∷ p) r h = ground (arith, append-cut_prefix s p r)

pub has_prefix-append : (p r : Bytes) → has_prefix (p ++ r) p ≡ true
unfolding has_prefix
has_prefix-append p r = rw cut_prefix-append

pub has_prefix_rest :
    (s p : Bytes) → has_prefix s p ≡ true → (r : Bytes) × (cut_prefix s p ≡ some r)
unfolding has_prefix
has_prefix_rest s p h = elim (Option-cases (cut_prefix s p)) [
  | inl e ↦ absurd (ground arith)
  | inr found ↦ found
]

pub cut_prefix-eq-none : (s p : Bytes) → has_prefix s p ≡ false → cut_prefix s p ≡ none
unfolding has_prefix
cut_prefix-eq-none s p h = ground arith

-- Two prefixes of one text are comparable.
pub has_prefix_either :
    (a b r : Bytes)
    → has_prefix (a ++ r) b ≡ true
    → (has_prefix a b ≡ true) ⊎ (has_prefix b a ≡ true)
unfolding has_prefix
has_prefix_either [] b r h = inr refl
has_prefix_either (c ∷ a) [] r h = inl refl
has_prefix_either (c ∷ a) (d ∷ b) r h = ground (arith, has_prefix_either a b r)
