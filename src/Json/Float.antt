-- ===== src/Json/Float.antt =====
-- Which numbers a `float64` cannot tell apart.
use Prim.Native.Nat.{◌*◌, ◌/◌, ◌^◌}
use bergrebase.Base.{ap, arith, number, pos, suc, ℕ, ◌+◌, ◌<◌, ◌∙◌, ◌≡◌, ◌≤◌}
use bergrebase.Json.{exponent, round_float64, float64, as_any, number}

exponent_low : (r n : ℕ) → n < 2 ^ 53 → exponent (suc r) n ≡ 0
unfolding exponent
exponent_low r n h = ground arith

exponent_one : (r n : ℕ) → 2 ^ 53 ≤ n → n < 2 ^ 54 → exponent (suc (suc r)) n ≡ 1
exponent_one r n h k =
    let halved : exponent (suc r) (n / 2) ≡ 0 = exponent_low r (n / 2) (omega arith) in
    exponent_above (suc r) n h ∙ ap suc halved
  where
    exponent_above : (f m : ℕ) → 2 ^ 53 ≤ m → exponent (suc f) m ≡ suc (exponent f (m / 2))
    exponent_above f m big = unfold exponent in ground arith

-- Between 2 ^ 53 and 2 ^ 54, a number one above a multiple of four becomes that multiple.
pub round_float64_tie :
    (j : ℕ) → 2 ^ 53 ≤ 4 * j → 4 * j < 2 ^ 54 → round_float64 (4 * j + 1) ≡ 4 * j
unfolding round_float64
round_float64_tie j h k =
    rw (exponent_one 62 (4 * j + 1) (omega arith) (omega arith), round_float64) (ground arith)

pub round_float64_multiple :
    (j : ℕ) → 2 ^ 53 ≤ 4 * j → 4 * j < 2 ^ 54 → round_float64 (4 * j) ≡ 4 * j
unfolding round_float64
round_float64_multiple j h k = rw (exponent_one 62 (4 * j) h k, round_float64) (ground arith)

-- Two numbers between 2 ^ 53 and 2 ^ 54, a multiple of four and the one after it, become the same
-- number when a document is read: a snapshot id may change.
pub as_any_merges :
    (j : ℕ)
    → 2 ^ 53 ≤ 4 * j
    → 4 * j < 2 ^ 54
    → as_any (number (pos (4 * j + 1))) ≡ as_any (number (pos (4 * j)))
unfolding as_any float64
as_any_merges j h k = rw (round_float64_tie j h k, round_float64_multiple j h k)
