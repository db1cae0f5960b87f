-- ===== src/Base/Text.antt =====
-- Go strings as lists of bytes, and what the program uses of `strings`, `strconv` and `fmt`.
use Prim.Native.Nat.{ℕ, zero, suc, ◌+◌, ◌/◌, ◌%◌}
use Prim.Native.Char.{code}
use Prim.Native.String.{String}
use mathlib.Core.Bool.{Bool, true, false, ◌||◌}
use mathlib.Core.Option
use mathlib.Core.Option.{Option, none, some}
use mathlib.Core.List.{List, [], ◌∷◌, ◌++◌, reverse}
use bergrebase.Base.Tests.{◌==◌, nat_eq, if◌then◌else◌}

abbrev pub Bytes : Type 0
Bytes = List ℕ

-- A literal of the source; they are all ASCII.
abbrev pub codes : String → Bytes
codes String.[] = []
codes (String.◌∷◌ c s) = code c ∷ codes s

-- `strings.CutPrefix`: what is left of the text behind the prefix, if it has it
unfoldable pub cut_prefix : Bytes → Bytes → Option Bytes
cut_prefix s [] = some s
cut_prefix [] (p ∷ ps) = none
cut_prefix (c ∷ s) (p ∷ ps) = if c == p then cut_prefix s ps else none

abbrev is_found : Option Bytes → Bool
is_found none = false
is_found (some _) = true

-- `strings.HasPrefix`
unfoldable pub has_prefix : Bytes → Bytes → Bool
unfolding cut_prefix
has_prefix s p = is_found (cut_prefix s p)

-- `strings.HasSuffix`
unfoldable pub has_suffix : Bytes → Bytes → Bool
unfolding has_prefix
has_suffix s p = has_prefix (reverse s) (reverse p)

-- `strings.Contains`
unfoldable pub contains : Bytes → Bytes → Bool
unfolding has_prefix
contains [] sub = has_prefix [] sub
contains (c ∷ s) sub = has_prefix (c ∷ s) sub || contains s sub

-- `strings.Cut`: the parts around the first separator, `none` where there is none
unfoldable pub cut : Bytes → Bytes → Option (Bytes × Bytes)
unfolding cut_prefix
cut [] sep = Option.map (λ rest. ([], rest)) (cut_prefix [] sep)
cut (c ∷ s) sep =
    let further = Option.map (λ (before, after). (c ∷ before, after)) (cut s sep) in
    elim (cut_prefix (c ∷ s) sep) [ some rest ↦ some ([], rest) | none ↦ further ]

-- `strings.Join`
unfoldable pub join : List Bytes → Bytes → Bytes
join [] sep = []
join (x ∷ []) sep = x
join (x ∷ y ∷ ys) sep = x ++ (sep ++ join (y ∷ ys) sep)

-- `strings.Split` at a separator of one byte, with the part read so far
unfoldable pub split_from : Bytes → Bytes → ℕ → List Bytes
split_from part [] sep = part ∷ []
split_from part (c ∷ s) sep = elim (c == sep) [
  | true ↦ part ∷ split_from [] s sep
  | false ↦ split_from (part ++ c ∷ []) s sep
]

unfoldable pub split : Bytes → ℕ → List Bytes
unfolding split_from
split s sep = split_from [] s sep

-- `%d` of a number that is not negative; a number has fewer digits than `fuel = suc n`
unfoldable pub digits : ℕ → ℕ → Bytes → Bytes
digits zero n out = out
digits (suc fuel) n out = elim (n / 10 == 0) [
  | true ↦ (48 + n % 10) ∷ out
  | false ↦ digits fuel (n / 10) ((48 + n % 10) ∷ out)
]

unfoldable pub decimal : ℕ → Bytes
unfolding digits
decimal n = digits (suc n) n []
