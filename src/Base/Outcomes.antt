-- ===== src/Base/Outcomes.antt =====
-- What one run of an action ends in: a value and a world, or an error and a world.
use Prim.Native.String.{String}
use mathlib.Core.Path.{◌≡◌, refl, ap}
use mathlib.Core.Bool.{Bool, true, false}
use mathlib.Core.List.{List}
use bergrebase.Base.Tests.{if◌then◌else◌}
use bergrebase.Base.Errors.{Error, Arg, Result, ok, err, wrap, wrapf}
use bergrebase.Base.Steps.{>>=-of_ok}
use bergrebase.Base.Effects.{Action, Ensures, Always, pure, fail, context, attempt, resume, ◌>>=◌}

module _ {ℓ} {W A : Type ℓ} where
  abbrev pub OnResult {κ} : (A → W → Type κ) → (Error → W → Type κ) → Result A × W → Type κ
  OnResult Q E (ok a, w) = Q a w
  OnResult Q E (err e, w) = E e w

  -- The run from `w` succeeds with `Q` or fails with `E`.
  abbrev pub Ends {κ} : Action W A → W → (A → W → Type κ) → (Error → W → Type κ) → Type κ
  Ends m w Q E = OnResult Q E (m w)

  pub Ends-pure {κ} :
      (a : A) (w : W) (Q : A → W → Type κ) (E : Error → W → Type κ) → Q a w → Ends (pure a) w Q E
  unfolding pure
  Ends-pure a w Q E h = h

  pub Ends-fail {κ} :
      (e : Error) (w : W) (Q : A → W → Type κ) (E : Error → W → Type κ)
      → E e w
      → Ends (fail e) w Q E
  unfolding fail
  Ends-fail e w Q E h = h

  pub Ends-if {κ} :
      (b : Bool) (m n : Action W A) (w : W) (Q : A → W → Type κ) (E : Error → W → Type κ)
      → (b ≡ true → Ends m w Q E)
      → (b ≡ false → Ends n w Q E)
      → Ends (if b then m else n) w Q E
  Ends-if true m n w Q E h k = h refl
  Ends-if false m n w Q E h k = k refl

  pub Ends-context {κ} :
      (format : String) (args : List Arg) (m : Action W A) (w : W) (Q : A → W → Type κ)
      (E : Error → W → Type κ)
      → Ends m w Q (λ e. E (wrapf format args e))
      → Ends (context format args m) w Q E
  unfolding context
  Ends-context format args m w Q E h = wrapped (m w) h
    where
      wrapped :
          (p : Result A × W)
          → OnResult Q (λ e. E (wrapf format args e)) p
          → OnResult Q E (wrap format args p.0, p.1)
      wrapped (ok a, w') k = k
      wrapped (err e, w') k = k

  pub Ends-weaken {κ} :
      (m : Action W A) (w : W) (R Q : A → W → Type κ) (D E : Error → W → Type κ)
      → Ends m w R D
      → ((a : A) (w' : W) → R a w' → Q a w')
      → ((e : Error) (w' : W) → D e w' → E e w')
      → Ends m w Q E
  Ends-weaken m w R Q D E h f g = weaken (m w) h
    where
      weaken : (p : Result A × W) → OnResult R D p → OnResult Q E p
      weaken (ok a, w') k = f a w' k
      weaken (err e, w') k = g e w' k

  -- What an action keeps and what it returns, at one run.
  pub Ends-of_Ensures {κ} :
      (P : W → Type κ) (Q : A → Type κ) (m : Action W A) (w : W)
      → Ensures P Q m
      → P w
      → Ends m w (λ a w'. P w' × Q a) (λ e w'. P w')
  Ends-of_Ensures P Q m w h p = split (m w) refl (h.keeps w p)
    where
      split : (r : Result A × W) → m w ≡ r → P r.1 → OnResult (λ a w'. P w' × Q a) (λ e w'. P w') r
      split (ok a, w') e q = (q, h.returns w a p (ap (λ (x : Result A × W). x.0) e))
      split (err x, w') e q = q

  -- A run ends as one knows, and that is what it computes.
  pub Ends-known {κ} :
      (m : Action W A) (w : W) (Q : A → W → Type κ) (E : Error → W → Type κ)
      → Ends m w Q E
      → Ends m w (λ a w'. Q a w' × (m w ≡ (ok a, w'))) (λ e w'. E e w' × (m w ≡ (err e, w')))
  Ends-known m w Q E h = both (m w) refl h
    where
      both :
          (r : Result A × W)
          → m w ≡ r
          → OnResult Q E r
          → OnResult (λ a w'. Q a w' × (m w ≡ (ok a, w'))) (λ e w'. E e w' × (m w ≡ (err e, w'))) r
      both (ok a, w') e k = (k, e)
      both (err x, w') e k = (k, e)

  -- A run ends as one knows, and keeps what the action keeps.
  pub Ends-keeping {κ} :
      (P : W → Type κ) (m : Action W A) (w : W) (Q : A → W → Type κ) (E : Error → W → Type κ)
      → Ensures P Always m
      → P w
      → Ends m w Q E
      → Ends m w (λ a w'. P w' × Q a w') (λ e w'. P w' × E e w')
  Ends-keeping P m w Q E h p k = both (m w) (h.keeps w p) k
    where
      both :
          (r : Result A × W)
          → P r.1
          → OnResult Q E r
          → OnResult (λ a w'. P w' × Q a w') (λ e w'. P w' × E e w') r
      both (ok a, w') q k' = (q, k')
      both (err x, w') q k' = (q, k')

  -- An action keeps and returns what each of its runs does.
  pub Ensures-of_Ends {κ} :
      (P : W → Type κ) (Q : A → Type κ) (m : Action W A)
      → ((w : W) → P w → Ends m w (λ a w'. P w' × Q a) (λ e w'. P w'))
      → Ensures P Q m
  Ensures-of_Ends P Q m h = record {
    keeps = λ w p. kept (m w) (h w p);
    returns = λ w a p e. told (m w) a e (h w p);
  }
    where
      kept : (r : Result A × W) → OnResult (λ a w'. P w' × Q a) (λ e w'. P w') r → P r.1
      kept (ok b, w) (p, q) = p
      kept (err x, w) p = p

      told :
          (r : Result A × W) (a : A)
          → r.0 ≡ ok a
          → OnResult (λ a w'. P w' × Q a) (λ e w'. P w') r
          → Q a
      told (ok b, w) a e (p, q) = let same : b ≡ a = cc e in rw (← same) q
      told (err x, w) a e p = absurd (cc e)

  pub Ends-of_runs {κ} :
      (m : Action W A) (w : W) (Q : A → W → Type κ) (E : Error → W → Type κ)
      → ((a : A) (w' : W) → m w ≡ (ok a, w') → Q a w')
      → ((e : Error) (w' : W) → m w ≡ (err e, w') → E e w')
      → Ends m w Q E
  Ends-of_runs m w Q E h k = split (m w) refl
    where
      split : (p : Result A × W) → m w ≡ p → OnResult Q E p
      split (ok a, w') r = h a w' r
      split (err e, w') r = k e w' r

module _ {ℓ} {W A : Type ℓ} where
  pub Ends-attempt {κ} :
      (m : Action W A) (w : W) (Q : Result A → W → Type κ) (E : Error → W → Type κ)
      → Ends m w (λ a. Q (ok a)) (λ e. Q (err e))
      → Ends (attempt m) w Q E
  unfolding attempt
  Ends-attempt m w Q E h = kept (m w) h
    where
      kept : (p : Result A × W) → OnResult (λ a. Q (ok a)) (λ e. Q (err e)) p → Q p.0 p.1
      kept (ok a, w') k = k
      kept (err e, w') k = k

module _ {ℓ} {W A B : Type ℓ} where
  pub Ends-bind {κ} :
      (m : Action W A) (f : A → Action W B) (w : W) (R : A → W → Type κ) (Q : B → W → Type κ)
      (E : Error → W → Type κ)
      → Ends m w R E
      → ((a : A) (w' : W) → R a w' → Ends (f a) w' Q E)
      → Ends (m >>= f) w Q E
  unfolding ◌>>=◌ resume
  Ends-bind m f w R Q E h k = resumed (m w) h
    where
      resumed : (p : Result A × W) → OnResult R E p → OnResult Q E (resume p.0 f p.1)
      resumed (ok a, w') r = k a w' r
      resumed (err e, w') r = r

  -- A run whose first action is known goes on from where that one ended.
  pub Ends-step {κ} :
      (m : Action W A) (f : A → Action W B) (w : W) (a : A) (between : W) (Q : B → W → Type κ)
      (E : Error → W → Type κ)
      → m w ≡ (ok a, between)
      → Ends (f a) between Q E
      → Ends (m >>= f) w Q E
  Ends-step m f w a between Q E h k = rw (>>=-of_ok m f w h) k
