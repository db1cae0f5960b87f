-- ===== src/Cli/Namespaces/Keys.antt =====
-- The keys of namespaces, and which of them have been visited.
use mathlib.Core.List.{map, Memᴰ, map-append}
use mathlib.Core.List.Memᴰ
use bergrebase.Base.{
  ==_refl, All, Bool-cases, Bytes, Lacks, List, [], arith, false, inl, inr, int_eq, join-injective,
  list_beq_iff, list_eq, nat_eq, refl, true, ◌++◌, ◌==◌, ◌||◌, ◌∷◌, ◌≡◌, ◌≢◌,
}
use bergrebase.Catalog.{Namespace}
use bergrebase.Cli.Namespaces.{key_of, is_visited}

pub is_visited-append :
    (k j : Bytes) (ks : List Bytes) → is_visited k (ks ++ j ∷ []) ≡ (j == k || is_visited k ks)
unfolding is_visited
is_visited-append k j [] = refl
is_visited-append k j (i ∷ ks) = ground (arith, is_visited-append k j ks)

-- A key that is visited is that of a namespace in the list.
pub visited-mem :
    (k : Bytes) (all : List Namespace)
    → is_visited k (map key_of all) ≡ true
    → (ns : Namespace) × Memᴰ ns all × (key_of ns ≡ k)
unfolding is_visited
visited-mem k [] h = absurd (cc)
visited-mem k (ns ∷ all) h = elim (Bool-cases (key_of ns == k)) [
  | inl e ↦ (ns, Memᴰ.head refl, (list_beq_iff (key_of ns) k).0 e)
  | inr e ↦ let (x, m, same) = visited-mem k all (ground (arith, e)) in (x, Memᴰ.tail m, same)
]

pub mem-visited :
    (ns : Namespace) (all : List Namespace)
    → Memᴰ ns all
    → is_visited (key_of ns) (map key_of all) ≡ true
unfolding is_visited
mem-visited ns [] m = absurd (Memᴰ.not-nil m)
mem-visited ns (x ∷ all) m = elim (Memᴰ.cases_cons m) [
  | inl e ↦ rw (← e) (ground (arith, ==_refl (key_of ns)))
  | inr later ↦ ground (arith, mem-visited ns all later)
]

-- No two namespaces of the list have the same key.
abbrev pub DistinctKeys : List Namespace → Type 0
DistinctKeys [] = Unit
DistinctKeys (ns ∷ all) = (is_visited (key_of ns) (map key_of all) ≡ false) × DistinctKeys all

pub DistinctKeys-append :
    (all : List Namespace) (ns : Namespace)
    → DistinctKeys all
    → is_visited (key_of ns) (map key_of all) ≡ false
    → DistinctKeys (all ++ ns ∷ [])
unfolding is_visited
DistinctKeys-append [] ns d h = (refl, tt)
DistinctKeys-append (x ∷ all) ns (fresh, d) h = (
  rw map-append (
      ground (
        arith,
        is_visited-append (key_of x) (key_of ns) (map key_of all),
        list_beq_iff (key_of x) (key_of ns),
        list_beq_iff (key_of ns) (key_of x),
      )),
  DistinctKeys-append all ns d (ground arith),
)

-- A namespace with parts, none of which has the separator of keys.
abbrev pub Plain : Namespace → Type 0
Plain ns = (ns ≢ []) × All (Lacks 31) ns

-- Plain namespaces have the same key only if they are the same.
pub key_of-injective : (a b : Namespace) → Plain a → Plain b → key_of a ≡ key_of b → a ≡ b
unfolding key_of
key_of-injective [] b (ne, _) _ e = absurd (ne refl)
key_of-injective (x ∷ xs) [] _ (ne, _) e = absurd (ne refl)
key_of-injective (x ∷ xs) (y ∷ ys) (_, h) (_, k) e = join-injective 31 x y xs ys h k e
