-- ===== src/Base/Cuts.antt =====
-- Cutting a text at a byte, and joining parts that lack it.
use mathlib.Core.Path.{◌≡◌, refl, ap}
use mathlib.Core.Path.{ap₂}
use mathlib.Core.Logic.{◌≢◌, inl, inr}
use mathlib.Core.Option.{none, some}
use mathlib.Core.List.{List, [], ◌∷◌, ◌++◌}
use Prim.Native.Nat.{ℕ}
use native.Mathlib.Omega.{arith}
use bergrebase.Base.Tests.{Option-cases}
use bergrebase.Base.Lists.{All}
use bergrebase.Base.Text.{Bytes, cut, join}

-- No byte of the text is `c`.
abbrev pub Lacks : ℕ → Bytes → Type 0
Lacks c = All (λ d. d ≢ c)

pub cut-append : (c : ℕ) (b k : Bytes) → Lacks c b → cut (b ++ c ∷ k) (c ∷ []) ≡ some (b, k)
unfolding cut
cut-append c [] k l = ground arith
cut-append c (d ∷ b) k (ne, l) = ground (arith, cut-append c b k l)

pub append-cut :
    (c : ℕ) (s b k : Bytes) → cut s (c ∷ []) ≡ some (b, k) → (s ≡ b ++ c ∷ k) × Lacks c b
unfolding cut
append-cut c [] b k h = absurd (cc)
append-cut c (d ∷ s) b k h = elim (Option-cases (cut s (c ∷ []))) [
  | inl e ↦ ground arith
  | inr ((b', k'), e) ↦ ground (arith, append-cut c s b' k')
]

pub cut_lacking : (c : ℕ) (b : Bytes) → Lacks c b → cut b (c ∷ []) ≡ none
unfolding cut
cut_lacking c [] l = refl
cut_lacking c (d ∷ b) (ne, l) = ground (arith, cut_lacking c b l)

-- Parts that are joined at a byte that none of them has can be told from the result.
pub join-injective :
    (c : ℕ) (x y : Bytes) (xs ys : List Bytes)
    → All (Lacks c) (x ∷ xs)
    → All (Lacks c) (y ∷ ys)
    → join (x ∷ xs) (c ∷ []) ≡ join (y ∷ ys) (c ∷ [])
    → x ∷ xs ≡ y ∷ ys
unfolding join
join-injective c x y [] [] h k e = ap (λ z. z ∷ []) e
join-injective c x y [] (z ∷ zs) (h, _) (k, _) e =
    absurd (cc (cut_lacking c x h, cut-append c y (join (z ∷ zs) (c ∷ [])) k, e))
join-injective c x y (z ∷ zs) [] (h, _) (k, _) e =
    absurd (cc (cut_lacking c y k, cut-append c x (join (z ∷ zs) (c ∷ [])) h, e))
join-injective c x y (v ∷ vs) (z ∷ zs) (h, hs) (k, ks) e =
    let left = cut-append c x (join (v ∷ vs) (c ∷ [])) h in
    let right = cut-append c y (join (z ∷ zs) (c ∷ [])) k in
    let first : x ≡ y = cc (left, right, e) in
    let later : join (v ∷ vs) (c ∷ []) ≡ join (z ∷ zs) (c ∷ []) = cc (left, right, e) in
    ap₂ ◌∷◌ first (join-injective c v z vs zs hs ks later)
