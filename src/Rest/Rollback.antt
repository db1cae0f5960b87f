-- ===== src/Rest/Rollback.antt =====
-- internal/catalog/rest/rest.go: the rollback of `swapByDropRegister`, on a server that takes back a
-- location that it has held.
pub mod Swaps
use bergrebase.Base.{
  Action, Always, Bool, Bytes, Ends, Ends-attempt, Ends-bind, Ends-context, Ends-weaken,
  Ensures-of_Ends, Error, Keeps, Option, Result, Succeeds, attempt, err, fail, false, none, ok,
  pure, some, ◌∙◌, ◌≡◌,
}
use bergrebase.Catalog.{Identifier}
use bergrebase.Rest.{detached, Transport, Config, Context, post_method}
use bergrebase.Rest.Requests.{drop_table, register_table}
use bergrebase.Rest.Server.{Serves, register_request, drop-Ends, register-Ends}
use bergrebase.Rest.Swap.{after_rollback, after_register, swap_by_drop_register}
use bergrebase.Rest.Swap.Answers.{Accepted, do_request-ok}

module _ {W : Type 0} (t : Transport W) (cfg : Config) (at : t.Url × Bytes) (id : Identifier)
    (pointer : W → Option Bytes) (valid : Bytes → Type 0) where
  -- What the rollback relies on: a location that the catalog holds is valid, and a table that is
  -- not there can be registered at a valid location, away from the caller's cancellation. Any other
  -- location may be refused, and any other request may fail.
  pub record Restores : Type 0 where
    pub held : (w : W) (l : Bytes) → pointer w ≡ some l → valid l
    pub accepts :
        (w : W) (l : Bytes)
        → valid l
        → pointer w ≡ none
        → Succeeds
            (t.send detached (register_request t cfg at id l false))
            w
            (λ resp w'. Accepted resp)

module _ {W : Type 0} (t : Transport W) (cfg : Config) (at : t.Url × Bytes) (id : Identifier)
    (pointer : W → Option Bytes) (s : Serves t cfg at id pointer) (valid : Bytes → Type 0)
    (r : Restores t cfg at id pointer valid) where
  -- The catalog has the table.
  abbrev pub There : W → Type 0
  There w = (l : Bytes) × (pointer w ≡ some l)

  pub register-There :
      (ctx : Context) (l : Bytes) (overwrite : Bool)
      → Keeps There (register_table t cfg at ctx id l overwrite)
  register-There ctx l overwrite =
      let m = register_table t cfg at ctx id l overwrite in
      Ensures-of_Ends There Always m λ w (was, h).
        Ends-weaken m w (λ u w'. pointer w' ≡ some l) (λ u w'. There w' × Always u)
          (λ e w'. pointer w' ≡ pointer w) (λ e w'. There w')
          (register-Ends t cfg at id pointer s ctx l overwrite w) (λ u w' q. ((l, q), tt))
          (λ e w' q. (was, q ∙ h))

  module _ (old new : Bytes) (good : valid old) where
    -- The rollback succeeds.
    Restored : Result (Unit {0}) → W → Type 0
    Restored (ok u) w = There w
    Restored (err e) w = ⊥

    register_back-Ends :
        (w : W)
        → pointer w ≡ none
        → Ends
            (attempt (register_table t cfg at detached id old false))
            w
            Restored
            (λ e w'. There w')
    unfolding Restored register_table
    register_back-Ends w gone =
        let (resp, w', sent, fine) = r.accepts w old good gone in
        let req = register_request t cfg at id old false in
        let ran : register_table t cfg at detached id old false w ≡ (ok tt, w') =
          do_request-ok t cfg detached post_method req.url req.body w w' resp sent fine in
        Ends-attempt (register_table t cfg at detached id old false) w Restored (λ e w'. There w')
          (rw ran (old, s.registered detached old false w w' resp sent fine))

    -- What a registration makes of a pointer that is gone.
    Attempted : Result (Unit {0}) → W → Type 0
    Attempted (ok u) w = There w
    Attempted (err e) w = pointer w ≡ none

    abbrev Ended : Action W (Unit {0}) → W → Type 0
    Ended m w = Ends m w (λ u w'. There w' × Always u) (λ e w'. There w')

    after_rollback-There :
        (e : Error) (x : Result (Unit {0})) (w : W)
        → Restored x w
        → Ended (after_rollback t id old new e x) w
    unfolding after_rollback fail Restored
    after_rollback-There e (ok u) w h = h
    after_rollback-There e (err rb) w h = absurd h

    after_register-There :
        (x : Result (Unit {0})) (w : W)
        → Attempted x w
        → Ended (after_register t cfg at id old new x) w
    unfolding after_register pure Attempted
    after_register-There (ok u) w h = (h, tt)
    after_register-There (err e) w h =
        Ends-bind (attempt (register_table t cfg at detached id old false))
          (after_rollback t id old new e) w Restored (λ u w'. There w' × Always u)
          (λ e w'. There w') (register_back-Ends w h) (after_rollback-There e)

    register_new-Ends :
        (w : W)
        → pointer w ≡ none
        → Ends
            (attempt (register_table t cfg at detached id new false))
            w
            Attempted
            (λ e w'. There w')
    unfolding Attempted
    register_new-Ends w gone =
        let m = register_table t cfg at detached id new false in
        Ends-attempt m w Attempted (λ e w'. There w')
          (Ends-weaken m w (λ u w'. pointer w' ≡ some new) (λ u w'. There w')
            (λ e w'. pointer w' ≡ pointer w) (λ e w'. pointer w' ≡ none)
            (register-Ends t cfg at id pointer s detached new false w) (λ u w' q. (new, q))
            (λ e w' q. q ∙ gone))

    -- With a valid old location, the drop and registration never lose the table.
    pub swap_by_drop_register-There : Keeps There (swap_by_drop_register t cfg at id old new)
    unfolding swap_by_drop_register
    swap_by_drop_register-There =
        Ensures-of_Ends There Always (swap_by_drop_register t cfg at id old new) λ w (was, h).
          Ends-bind _ _ w (λ u w'. pointer w' ≡ none) (λ u w'. There w' × Always u)
            (λ e w'. There w')
            (Ends-context _ _ (drop_table t cfg at detached id) w (λ u w'. pointer w' ≡ none)
              (λ e w'. There w')
              (Ends-weaken (drop_table t cfg at detached id) w (λ u w'. pointer w' ≡ none)
                (λ u w'. pointer w' ≡ none) (λ e w'. pointer w' ≡ pointer w) (λ e w'. There w')
                (drop-Ends t cfg at id pointer s detached w) (λ u w' q. q)
                (λ e w' q. (was, q ∙ h))))
            λ u w' gone.
              Ends-bind (attempt (register_table t cfg at detached id new false))
                (after_register t cfg at id old new) w' Attempted (λ u w''. There w'' × Always u)
                (λ e w''. There w'') (register_new-Ends w' gone) after_register-There
