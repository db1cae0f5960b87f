-- ===== src/Json.antt =====
-- encoding/json: documents as trees, and what `json.Unmarshal` into `map[string]any` makes of them.
-- An object is a map with the keys in some order, each once; `range` goes through it in that order.
pub mod Objects
pub mod Float
use Prim.Native.Nat.{◌*◌, ◌/◌, ◌%◌, ◌^◌}
use bergrebase.Base.{
  Bool, Bytes, Option, if◌then◌else◌, int_eq, list_eq, ltb, nat_eq, negsuc, none, pos, some, suc,
  zero, ℕ, ℤ, ◌+◌, ◌==◌,
}

mutual
  pub data Json : Type 0 where
    null : Json
    boolean : Bool → Json
    number : ℤ → Json
    real : Bytes → Json
    string : Bytes → Json
    array : Items → Json
    object : Fields → Json

  pub data Items : Type 0 where
    nil : Items
    cons : Json → Items → Items

  pub data Fields : Type 0 where
    end : Fields
    field : Bytes → Json → Fields → Fields

-- `v, ok := m[key]`
unfoldable pub get_field : Bytes → Fields → Option Json
get_field key end = none
get_field key (field k v fs) = if k == key then some v else get_field key fs

-- `m[key] = v`
unfoldable pub set_field : Bytes → Json → Fields → Fields
set_field key w end = field key w end
set_field key w (field k v fs) =
    let rest = set_field key w fs in if k == key then field k w fs else field k v rest

-- How far a number is shifted until it fits in the 53 bits of a `float64` significand. Numbers
-- below 2 ^ 117 are done within the 64 rounds.
unfoldable pub exponent : ℕ → ℕ → ℕ
exponent zero n = 0
exponent (suc rounds) n = if ltb n (2 ^ 53) then 0 else suc (exponent rounds (n / 2))

-- to nearest, ties to even
unfoldable pub round_at : ℕ → ℕ → ℕ
round_at zero n = n
round_at (suc e) n =
    let kept = n / 2 ^ suc e in
    let lost = n % 2 ^ suc e in
    if ltb lost (2 ^ e)
    then kept * 2 ^ suc e
    else if lost == 2 ^ e
    then (if kept % 2 == 0 then kept * 2 ^ suc e else (kept + 1) * 2 ^ suc e)
    else (kept + 1) * 2 ^ suc e

unfoldable pub round_float64 : ℕ → ℕ
unfolding exponent round_at
round_float64 n = round_at (exponent 64 n) n

-- The `float64` that stands for a number without fraction or exponent.
unfoldable pub float64 : ℤ → ℤ
unfolding round_float64
float64 (pos n) = pos (round_float64 n)
float64 (negsuc n) = elim (round_float64 (suc n)) [ zero ↦ pos 0 | suc m ↦ negsuc m ]

-- `json.Unmarshal` into an `any`: every number becomes a `float64`. Numbers with a fraction or an
-- exponent keep their text here: table metadata has none.
unfoldable mutual
  unfolding float64

  pub as_any : Json → Json
  as_any null = null
  as_any (boolean b) = boolean b
  as_any (number n) = number (float64 n)
  as_any (real s) = real s
  as_any (string s) = string s
  as_any (array xs) = array (as_any_items xs)
  as_any (object fs) = object (as_any_fields fs)

  pub as_any_items : Items → Items
  as_any_items nil = nil
  as_any_items (cons x xs) = cons (as_any x) (as_any_items xs)

  pub as_any_fields : Fields → Fields
  as_any_fields end = end
  as_any_fields (field k v fs) = field k (as_any v) (as_any_fields fs)
