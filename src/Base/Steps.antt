-- ===== src/Base/Steps.antt =====
-- How a run of an action that succeeded, or failed, is made of the runs of its parts.
use Prim.Native.String.{String}
use mathlib.Core.Path.{◌≡◌, refl, ap, ◌∙◌}
use mathlib.Core.List.{List}
use bergrebase.Base.Errors.{Error, Arg, Result, ok, err, wrap, wrapf, bind}
use bergrebase.Base.Effects.{Action, pure, lift, context, attempt, resume, ◌>>=◌}

pub ok-injective {ℓ} : {A : Type ℓ} {a b : A} → ok a ≡ ok b → a ≡ b
ok-injective h = cc

-- Inversion of a chain of pure steps.
pub bind-eq-ok {ℓ κ} :
    {A : Type ℓ} {B : Type κ} (r : Result A) (f : A → Result B) {b : B}
    → bind r f ≡ ok b
    → (a : A) × (r ≡ ok a) × (f a ≡ ok b)
bind-eq-ok (ok a) f h = (a, refl, h)
bind-eq-ok (err e) f h = cc

module _ {ℓ} {W A B : Type ℓ} where
  resume-eq-ok :
      (r : Result A) (f : A → Action W B) (w : W) (b : B) (w' : W)
      → resume r f w ≡ (ok b, w')
      → (a : A) × (r ≡ ok a) × (f a w ≡ (ok b, w'))
  unfolding resume
  resume-eq-ok (ok a) f w b w' h = (a, refl, h)
  resume-eq-ok (err e) f w b w' h = cc

  -- A bind that succeeds is two runs that succeed.
  pub >>=-eq-ok :
      (m : Action W A) (f : A → Action W B) (w : W) (b : B) (w' : W)
      → (m >>= f) w ≡ (ok b, w')
      → (a : A) × (between : W) × (m w ≡ (ok a, between)) × (f a between ≡ (ok b, w'))
  unfolding ◌>>=◌
  >>=-eq-ok m f w b w' h =
      let (a, e, h') = resume-eq-ok (m w).0 f (m w).1 b w' h in
      (a, (m w).1, ap (λ (r : Result A). (r, (m w).1)) e, h')

  -- Once the first action has run, the second goes on from where it ended.
  pub >>=-of_ok :
      (m : Action W A) (f : A → Action W B) (w : W) {a : A} {between : W}
      → m w ≡ (ok a, between)
      → (m >>= f) w ≡ f a between
  unfolding ◌>>=◌ resume
  >>=-of_ok m f w h = ap (λ (p : Result A × W). resume p.0 f p.1) h

  -- The value of a bind, where only the value of the first run is known.
  pub >>=-value :
      (m : Action W A) (f : A → Action W B) (w : W) {a : A} {r : Result B}
      → (m w).0 ≡ ok a
      → ((w' : W) → (f a w').0 ≡ r)
      → ((m >>= f) w).0 ≡ r
  >>=-value m f w h k =
      ap (λ (p : Result B × W). p.0) (>>=-of_ok m f w (ap (λ (r : Result A). (r, (m w).1)) h))
      ∙ k (m w).1

  pub >>=-of_err :
      (m : Action W A) (f : A → Action W B) (w : W) {e : Error} {between : W}
      → m w ≡ (err e, between)
      → (m >>= f) w ≡ (err e, between)
  unfolding ◌>>=◌ resume
  >>=-of_err m f w h = ap (λ (p : Result A × W). resume p.0 f p.1) h

module _ {ℓ} {W A : Type ℓ} where
  wrap_pair-eq-ok :
      (format : String) (args : List Arg) (r : Result A) (w : W) (a : A) (w' : W)
      → (let p : Result A × W = (wrap format args r, w) in p ≡ (ok a, w'))
      → (let p : Result A × W = (r, w) in p ≡ (ok a, w'))
  wrap_pair-eq-ok format args (ok b) w a w' h = h
  wrap_pair-eq-ok format args (err e) w a w' h = cc

  pub context-eq-ok :
      (format : String) (args : List Arg) (m : Action W A) (w : W) (a : A) (w' : W)
      → context format args m w ≡ (ok a, w')
      → m w ≡ (ok a, w')
  unfolding context
  context-eq-ok format args m w a w' h = wrap_pair-eq-ok format args (m w).0 (m w).1 a w' h

  pub context-of_ok :
      (format : String) (args : List Arg) (m : Action W A) (w : W) {a : A} {w' : W}
      → m w ≡ (ok a, w')
      → context format args m w ≡ (ok a, w')
  unfolding context
  context-of_ok format args m w h = ap (λ (p : Result A × W). (wrap format args p.0, p.1)) h

  pub context-of_value :
      (format : String) (args : List Arg) (m : Action W A) (w : W) {a : A}
      → (m w).0 ≡ ok a
      → (context format args m w).0 ≡ ok a
  context-of_value format args m w h =
      ap (λ (p : Result A × W). p.0)
        (context-of_ok format args m w (ap (λ (r : Result A). (r, (m w).1)) h))

  pub context-of_err :
      (format : String) (args : List Arg) (m : Action W A) (w : W) {e : Error} {w' : W}
      → m w ≡ (err e, w')
      → context format args m w ≡ (err (wrapf format args e), w')
  unfolding context
  context-of_err format args m w h = ap (λ (p : Result A × W). (wrap format args p.0, p.1)) h

  pub lift-eq-ok :
      (r : Result A) (w : W) (a : A) (w' : W) → lift r w ≡ (ok a, w') → (r ≡ ok a) × (w ≡ w')
  unfolding lift
  lift-eq-ok r w a w' h = (ap (λ (p : Result A × W). p.0) h, ap (λ (p : Result A × W). p.1) h)

  pub pure-eq-ok : (x : A) (w : W) (a : A) (w' : W) → pure x w ≡ (ok a, w') → (x ≡ a) × (w ≡ w')
  unfolding pure
  pure-eq-ok x w a w' h = (cc, ap (λ (p : Result A × W). p.1) h)

  pub attempt-eq-ok :
      (m : Action W A) (w : W) (r : Result A) (w' : W) → attempt m w ≡ (ok r, w') → m w ≡ (r, w')
  unfolding attempt
  attempt-eq-ok m w r w' h =
      let value = ok-injective (ap (λ (p : Result (Result A) × W). p.0) h) in
      let world = ap (λ (p : Result (Result A) × W). p.1) h in λ i. (value i, world i)

  pub attempt-of_run :
      (m : Action W A) (w : W) {r : Result A} {w' : W} → m w ≡ (r, w') → attempt m w ≡ (ok r, w')
  unfolding attempt
  attempt-of_run m w ran = ap (λ (p : Result A × W). (ok p.0, p.1)) ran

module _ {ℓ} {W A B : Type ℓ} where
  resume_congr :
      (p : Result A × W) (f g : A → Action W B)
      → ((a : A) (w : W) → f a w ≡ g a w)
      → resume p.0 f p.1 ≡ resume p.0 g p.1
  unfolding resume
  resume_congr (ok a, w) f g h = h a w
  resume_congr (err e, w) f g h = refl

  pub >>=-congr :
      (m : Action W A) (f g : A → Action W B) (w : W)
      → ((a : A) (w' : W) → f a w' ≡ g a w')
      → (m >>= f) w ≡ (m >>= g) w
  unfolding ◌>>=◌
  >>=-congr m f g w h = resume_congr (m w) f g h

module _ {ℓ} {W A B C : Type ℓ} where
  resume_assoc :
      (p : Result A × W) (f : A → Action W B) (g : B → Action W C)
      → (let q = resume p.0 f p.1 in resume q.0 g q.1) ≡ resume p.0 (λ a. f a >>= g) p.1
  unfolding resume ◌>>=◌
  resume_assoc (ok a, w) f g = refl
  resume_assoc (err e, w) f g = refl

  pub >>=-assoc :
      (m : Action W A) (f : A → Action W B) (g : B → Action W C) (w : W)
      → ((m >>= f) >>= g) w ≡ (m >>= λ a. f a >>= g) w
  unfolding ◌>>=◌
  >>=-assoc m f g w = resume_assoc (m w) f g
