-- ===== src/Base/Success.antt =====
-- Runs of actions that are known to succeed.
use Prim.Native.String.{String}
use mathlib.Core.Path.{◌≡◌, ◌∙◌}
use mathlib.Core.Bool.{Bool, false}
use mathlib.Core.List.{List}
use bergrebase.Base.Tests.{if◌then◌else◌}
use bergrebase.Base.Errors.{Arg, ok}
use bergrebase.Base.Effects.{Action, context, ◌>>=◌}
use bergrebase.Base.Steps.{>>=-of_ok, context-of_ok}

-- The action succeeds from `w`, with `Q` of what it returns and of the world it ends in.
abbrev pub Succeeds {ℓ κ} : {W A : Type ℓ} → Action W A → W → (A → W → Type κ) → Type (ℓ ⊔ κ)
Succeeds {W = W} {A = A} m w Q = (a : A) × (w' : W) × (m w ≡ (ok a, w')) × Q a w'

module _ {ℓ κ} {W A B : Type ℓ} where
  pub Succeeds-bind :
      (m : Action W A) (f : A → Action W B) (w : W) (R : A → W → Type κ) (Q : B → W → Type κ)
      → Succeeds m w R
      → ((a : A) (w' : W) → R a w' → Succeeds (f a) w' Q)
      → Succeeds (m >>= f) w Q
  Succeeds-bind m f w R Q (a, w', ran, r) k =
      let (b, w'', next, q) = k a w' r in (b, w'', >>=-of_ok m f w ran ∙ next, q)

  -- A run whose first action is known goes on from where that one ended.
  pub Succeeds-step :
      (m : Action W A) (f : A → Action W B) (w : W) {a : A} {between : W} (Q : B → W → Type κ)
      → m w ≡ (ok a, between)
      → Succeeds (f a) between Q
      → Succeeds (m >>= f) w Q
  Succeeds-step m f w Q ran (b, w'', next, q) = (b, w'', >>=-of_ok m f w ran ∙ next, q)

module _ {ℓ κ} {W A : Type ℓ} where
  pub Succeeds-context :
      (format : String) (args : List Arg) (m : Action W A) (w : W) (Q : A → W → Type κ)
      → Succeeds m w Q
      → Succeeds (context format args m) w Q
  Succeeds-context format args m w Q (a, w', ran, q) = (a, w', context-of_ok format args m w ran, q)

  pub Succeeds-if_false :
      (b : Bool) (m n : Action W A) (w : W) (Q : A → W → Type κ)
      → b ≡ false
      → Succeeds n w Q
      → Succeeds (if b then m else n) w Q
  Succeeds-if_false b m n w Q e h = rw e h
