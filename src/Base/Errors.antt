-- ===== src/Base/Errors.antt =====
-- Go's `error` values: sentinels, formatted messages, wrapping by `%w`, and `(value, err)` results.
-- A message is kept as its format text with its arguments; rendering it is not modelled.
use Prim.Native.Nat.{ℕ}
use Prim.Native.String.{String}
use mathlib.Core.Bool.{Bool, true, false, ◌||◌}
use mathlib.Core.Option.{Option, none, some, or_else}
use mathlib.Core.List.{List}
use bergrebase.Base.Int.{ℤ}
use bergrebase.Base.Text.{Bytes}

-- The errors that callers test for by `errors.Is`.
pub data Sentinel : Type 0 where
  unsupported_feature outside_prefix validation_failed catalog_drift not_found : Sentinel

-- An argument of a message.
pub data Arg : Type 0 where
  text : Bytes → Arg
  number : ℕ → Arg
  integer : ℤ → Arg

-- What an HTTP response of status 400 or more becomes (`httpError`).
pub record HttpError : Type 0 where
  pub method : Bytes
  pub path : Bytes
  pub status : ℕ
  pub body : Bytes

-- `external` is an error that code outside the repository returned.
pub data Error : Type 0 where
  sentinel : Sentinel → Error
  errorf : String → List Arg → Error
  wrapf : String → List Arg → Error → Error
  wrap_both : String → List Arg → Error → Error → Error
  http : HttpError → Error
  external : ℕ → Error

abbrev pub same_sentinel : Sentinel → Sentinel → Bool
same_sentinel unsupported_feature unsupported_feature = true
same_sentinel outside_prefix outside_prefix = true
same_sentinel validation_failed validation_failed = true
same_sentinel catalog_drift catalog_drift = true
same_sentinel not_found not_found = true
same_sentinel _ _ = false

-- `errors.Is(err, target)`
abbrev pub errors_is : Error → Sentinel → Bool
errors_is (sentinel s) t = same_sentinel s t
errors_is (errorf _ _) t = false
errors_is (wrapf _ _ e) t = errors_is e t
errors_is (wrap_both _ _ e f) t = errors_is e t || errors_is f t
errors_is (http _) t = false
errors_is (external _) t = false

-- `errors.As(err, &herr)` for a `*httpError`
unfoldable pub as_http : Error → Option HttpError
unfolding or_else
as_http (http h) = some h
as_http (wrapf _ _ e) = as_http e
as_http (wrap_both _ _ e f) = or_else (as_http e) (as_http f)
as_http (sentinel _) = none
as_http (errorf _ _) = none
as_http (external _) = none

pub data Result {ℓ} (A : Type ℓ) : Type ℓ where
  ok : A → Result A
  err : Error → Result A

-- `if err != nil { return …, fmt.Errorf("…: %w", …, err) }`
abbrev pub wrap {ℓ} : {A : Type ℓ} → String → List Arg → Result A → Result A
wrap format args (ok a) = ok a
wrap format args (err e) = err (wrapf format args e)

abbrev pub bind {ℓ κ} : {A : Type ℓ} {B : Type κ} → Result A → (A → Result B) → Result B
bind (ok a) f = f a
bind (err e) f = err e
