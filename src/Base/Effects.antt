-- ===== src/Base/Effects.antt =====
-- Calls that act on the world and may fail: Go functions that take storage or catalog handles and
-- return `(value, error)`. The world is kept abstract; what a call changed stays changed when a
-- later call fails.
use Prim.Native.String.{String}
use mathlib.Core.Path.{◌≡◌, refl}
use mathlib.Core.Bool.{Bool, true, false}
use mathlib.Core.List.{List}
use bergrebase.Base.Tests.{if◌then◌else◌}
use bergrebase.Base.Errors.{Error, Arg, Result, ok, err, wrap}

abbrev pub Action {ℓ} : Type ℓ → Type ℓ → Type ℓ
Action W A = W → Result A × W

module _ {ℓ} {W A : Type ℓ} where
  unfoldable pub pure : A → Action W A
  pure a w = (ok a, w)

  unfoldable pub fail : Error → Action W A
  fail e w = (err e, w)

  unfoldable pub lift : Result A → Action W A
  lift r w = (r, w)

  -- `fmt.Errorf("…: %w", …, err)` on the error of a call
  unfoldable pub context : String → List Arg → Action W A → Action W A
  context format args m w = let (r, w') = m w in (wrap format args r, w')

  -- `v, err := …`, where the code goes on with the error
  unfoldable pub attempt : Action W A → Action W (Result A)
  attempt m w = let (r, w') = m w in (ok r, w')

module _ {ℓ} {W A B : Type ℓ} where
  unfoldable pub resume : Result A → (A → Action W B) → Action W B
  resume (ok a) f w = f a w
  resume (err e) f w = (err e, w)

  infixl 10 ◌>>=◌ ◌>>◌
  unfoldable pub ◌>>=◌ : Action W A → (A → Action W B) → Action W B
  unfolding pure fail lift resume context attempt
  ◌>>=◌ m f w = let (r, w') = m w in resume r f w'

  abbrev pub ◌>>◌ : Action W A → Action W B → Action W B
  m >> n = m >>= λ _. n

-- From a world with `P` the action ends in a world with `P`, also where it fails, and what it
-- returns has `Q`.
pub record Ensures {ℓ κ} {W A : Type ℓ} (P : W → Type κ) (Q : A → Type κ) (m : Action W A)
    : Type (ℓ ⊔ κ) where
  pub keeps : (w : W) → P w → P (m w).1
  pub returns : (w : W) (a : A) → P w → (m w).0 ≡ ok a → Q a

abbrev pub Always {ℓ κ} : {A : Type ℓ} → A → Type κ
Always a = Unit

abbrev pub Keeps {ℓ κ} : {W A : Type ℓ} → (W → Type κ) → Action W A → Type (ℓ ⊔ κ)
Keeps P m = Ensures P Always m

pub wrap-eq-ok {ℓ} :
    {A : Type ℓ} (format : String) (args : List Arg) (r : Result A) (a : A)
    → wrap format args r ≡ ok a
    → r ≡ ok a
wrap-eq-ok format args (ok b) a h = h
wrap-eq-ok format args (err e) a h = cc

module _ {ℓ κ} {W A : Type ℓ} {P : W → Type κ} {Q : A → Type κ} where
  pub Ensures-pure : (a : A) → Q a → Ensures P Q (pure a)
  unfolding pure
  Ensures-pure a q = record { keeps = λ w p. p; returns = λ w b p e. subst_ok a b q e }
    where
      subst_ok : (a b : A) → Q a → ok a ≡ ok b → Q b
      subst_ok a b q e = rw (inner e) at q
        where
          inner : ok a ≡ ok b → a ≡ b
          inner e = cc

  pub Ensures-fail : (e : Error) → Ensures P Q (fail e)
  unfolding fail
  Ensures-fail e = record { keeps = λ w p. p; returns = λ w a p h. absurd (cc) }

  pub Ensures-lift : (r : Result A) → ((a : A) → r ≡ ok a → Q a) → Ensures P Q (lift r)
  unfolding lift
  Ensures-lift r q = record { keeps = λ w p. p; returns = λ w a p h. q a h }

  pub Ensures-if :
      (b : Bool) (m n : Action W A)
      → (b ≡ true → Ensures P Q m)
      → (b ≡ false → Ensures P Q n)
      → Ensures P Q (if b then m else n)
  Ensures-if true m n hm hn = hm refl
  Ensures-if false m n hm hn = hn refl

  pub Ensures-context :
      (format : String) (args : List Arg) (m : Action W A)
      → Ensures P Q m
      → Ensures P Q (context format args m)
  unfolding context
  Ensures-context format args m h = record {
    keeps = λ w p. h.keeps w p;
    returns = λ w a p e. h.returns w a p (wrap-eq-ok format args (m w).0 a e);
  }

  pub Keeps-attempt : (m : Action W A) → Ensures P Q m → Keeps P (attempt m)
  unfolding attempt
  Keeps-attempt m h = record { keeps = h.keeps; returns = λ w a p e. tt }

  pub Keeps-of_Ensures : (m : Action W A) → Ensures P Q m → Keeps P m
  Keeps-of_Ensures m h = record { keeps = h.keeps; returns = λ w a p e. tt }

module _ {ℓ κ} {W A B : Type ℓ} {P : W → Type κ} {R : B → Type κ} where
  resume-keeps :
      (r : Result A) (f : A → Action W B) (w : W)
      → ((a : A) → r ≡ ok a → Ensures P R (f a))
      → P w
      → P (resume r f w).1
  unfolding resume
  resume-keeps (ok a) f w h p = (h a refl).keeps w p
  resume-keeps (err e) f w h p = p

  resume-returns :
      (r : Result A) (f : A → Action W B) (w : W) (b : B)
      → ((a : A) → r ≡ ok a → Ensures P R (f a))
      → P w
      → (resume r f w).0 ≡ ok b
      → R b
  unfolding resume
  resume-returns (ok a) f w b h p e = (h a refl).returns w b p e
  resume-returns (err e) f w b h p q = absurd (cc)

module _ {ℓ κ} {W A B : Type ℓ} {P : W → Type κ} {Q : A → Type κ} {R : B → Type κ} where
  pub Ensures-bind :
      (m : Action W A) (f : A → Action W B)
      → Ensures P Q m
      → ((a : A) → Q a → Ensures P R (f a))
      → Ensures P R (m >>= f)
  unfolding ◌>>=◌
  Ensures-bind m f hm hf = record {
    keeps = λ w p. resume-keeps (m w).0 f (m w).1 (λ a e. hf a (hm.returns w a p e)) (hm.keeps w p);
    returns = λ w b p e.
        resume-returns (m w).0 f (m w).1 b (λ a e'. hf a (hm.returns w a p e')) (hm.keeps w p) e;
  }
