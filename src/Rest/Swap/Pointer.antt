-- ===== src/Rest/Swap/Pointer.antt =====
-- What `swapByDropRegister` does to the catalog's pointer.
use bergrebase.Base.{
  Action, Bytes, Ends, Ends-attempt, Ends-bind, Ends-context, Ends-weaken, Error, Option, Result,
  [], attempt, context, err, fail, false, inl, inr, none, ok, pure, refl, some, wrapf, ◌>>=◌, ◌∙◌,
  ◌∷◌, ◌≡◌,
}
use bergrebase.Catalog.{Identifier}
use bergrebase.Catalog.Contract.{NotSwapped}
use bergrebase.Rest.{detached, Transport, Config}
use bergrebase.Rest.Requests.{drop_table, register_table, qualified_name}
use bergrebase.Rest.Server.{Serves, drop-Ends, register-Ends}
use bergrebase.Rest.Swap.{after_register, after_rollback, swap_by_drop_register}

module _ {W : Type 0} (t : Transport W) (cfg : Config) (at : t.Url × Bytes) (id : Identifier)
    (pointer : W → Option Bytes) (s : Serves t cfg at id pointer) (old new : Bytes) where
  -- What a registration makes of a pointer that is gone.
  abbrev Registered : Bytes → Result (Unit {0}) → W → Type 0
  Registered location (ok u) w = pointer w ≡ some location
  Registered location (err e) w = pointer w ≡ none

  abbrev register : Bytes → Action W (Unit {0})
  register location = register_table t cfg at detached id location false

  register_gone-Ends :
      (location : Bytes) (w : W) (E : Error → W → Type 0)
      → pointer w ≡ none
      → Ends (attempt (register location)) w (Registered location) E
  register_gone-Ends location w E gone =
      Ends-attempt (register location) w (Registered location) E (
        Ends-weaken (register location) w (λ u w'. pointer w' ≡ some location)
          (λ u w'. pointer w' ≡ some location) (λ e w'. pointer w' ≡ pointer w)
          (λ e w'. pointer w' ≡ none)
          (register-Ends t cfg at id pointer s detached location false w) (λ u w' q. q)
          (λ e w' q. q ∙ gone))

  -- What a swap leaves that began with the pointer at `old`.
  abbrev SwapEnds : Action W (Unit {0}) → W → Type 0
  SwapEnds m w =
      Ends m w (λ u w'. pointer w' ≡ some new) (λ e w'. NotSwapped (some old) e (pointer w'))

  after_rollback-Ends :
      (e : Error) (r : Result (Unit {0})) (w : W)
      → Registered old r w
      → SwapEnds (after_rollback t id old new e r) w
  unfolding after_rollback fail
  after_rollback-Ends e (ok u) w h = inl h
  after_rollback-Ends e (err rb) w h = inr (h, refl)

  after_register-Ends :
      (r : Result (Unit {0})) (w : W)
      → Registered new r w
      → SwapEnds (after_register t cfg at id old new r) w
  unfolding after_register pure
  after_register-Ends (ok u) w h = h
  after_register-Ends (err e) w h =
      Ends-bind (attempt (register old)) (after_rollback t id old new e) w (Registered old)
        (λ u w'. pointer w' ≡ some new) (λ e w'. NotSwapped (some old) e (pointer w'))
        (register_gone-Ends old w (λ e w'. NotSwapped (some old) e (pointer w')) h)
        (after_rollback-Ends e)

  drop_first-Ends :
      (w : W)
      → pointer w ≡ some old
      → Ends
          (context "rest: drop %s: %w" (qualified_name t id ∷ []) (drop_table t cfg at detached id))
          w
          (λ u w'. pointer w' ≡ none)
          (λ e w'. NotSwapped (some old) e (pointer w'))
  drop_first-Ends w h =
      let m = drop_table t cfg at detached id in
      Ends-context "rest: drop %s: %w" (qualified_name t id ∷ []) m w (λ u w'. pointer w' ≡ none)
        (λ e w'. NotSwapped (some old) e (pointer w'))
        (Ends-weaken m w (λ u w'. pointer w' ≡ none) (λ u w'. pointer w' ≡ none)
          (λ e w'. pointer w' ≡ pointer w)
          (λ e w'.
            NotSwapped (some old) (wrapf "rest: drop %s: %w" (qualified_name t id ∷ []) e)
              (pointer w'))
          (drop-Ends t cfg at id pointer s detached w) (λ u w' q. q) (λ e w' q. inl (q ∙ h)))

  -- On a server with the laws of `Serves`, with the pointer at the old location, a swap by drop and
  -- register that succeeds leaves the new location. Where it fails, the old one is left, or none,
  -- and then the error reports the failed registration and the failed rollback.
  pub swap_by_drop_register-Ends :
      (w : W)
      → pointer w ≡ some old
      → Ends
          (swap_by_drop_register t cfg at id old new)
          w
          (λ u w'. pointer w' ≡ some new)
          (λ e w'. NotSwapped (some old) e (pointer w'))
  unfolding swap_by_drop_register
  swap_by_drop_register-Ends w h =
      Ends-bind
        (context "rest: drop %s: %w" (qualified_name t id ∷ []) (drop_table t cfg at detached id))
        (λ _. attempt (register new) >>= after_register t cfg at id old new) w
        (λ u w'. pointer w' ≡ none) (λ u w'. pointer w' ≡ some new)
        (λ e w'. NotSwapped (some old) e (pointer w')) (drop_first-Ends w h)
        λ u w' gone.
          Ends-bind (attempt (register new)) (after_register t cfg at id old new) w'
            (Registered new) (λ u w''. pointer w'' ≡ some new)
            (λ e w''. NotSwapped (some old) e (pointer w''))
            (register_gone-Ends new w' (λ e w''. NotSwapped (some old) e (pointer w'')) gone)
            after_register-Ends
