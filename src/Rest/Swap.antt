-- ===== src/Rest/Swap.antt =====
-- internal/catalog/rest/rest.go: `SwapMetadataLocation` and `swapByDropRegister`.
pub mod Pointer
pub mod Atomic
pub mod Modes
pub mod Answers
pub mod Reload
pub mod Live
pub mod Exchange
use bergrebase.Base.{
  Action, Bytes, Error, Result, [], attempt, catalog_drift, context, err, errorf, fail, false,
  if◌then◌else◌, int_eq, list_eq, nat_eq, ok, pure, sentinel, text, true, wrap_both, wrapf, ◌==◌,
  ◌>>=◌, ◌>>◌, ◌∷◌,
}
use bergrebase.Catalog.{Identifier, Table}
use bergrebase.Rest.{
  caller, detached, Transport, Config, Client, call, SwapMode, mode_unknown, mode_atomic,
  mode_drop_register, is_already_exists, is_bad_request,
}
use bergrebase.Rest.Requests.{
  init, config_of, load_table, drop_table, register_table, qualified_name,
}

module _ {W : Type 0} (t : Transport W) where
  open t use {Url}

  -- what follows the second register call
  unfoldable pub after_rollback :
      Identifier → Bytes → Bytes → Error → Result (Unit {0}) → Action W (Unit {0})
  after_rollback id old new e (err rb) = fail (
      wrap_both "rest: register %s -> %s failed: %w; rollback to %s also failed: %w"
        (qualified_name t id ∷ text new ∷ text old ∷ []) e rb)
  after_rollback id old new e (ok _) = fail (
      wrapf "rest: register %s -> %s failed (rolled back to %s): %w"
        (qualified_name t id ∷ text new ∷ text old ∷ []) e)

  module _ (cfg : Config) (at : Url × Bytes) (id : Identifier) (old new : Bytes) where
    -- what follows the register call
    unfoldable pub after_register : Result (Unit {0}) → Action W (Unit {0})
    unfolding after_rollback attempt
    after_register (ok _) = pure tt
    after_register (err e) = do
      rolled_back ← attempt (register_table t cfg at detached id old false)
      after_rollback id old new e rolled_back

    -- `swapByDropRegister`
    unfoldable pub swap_by_drop_register : Action W (Unit {0})
    unfolding after_register attempt
    swap_by_drop_register = do
      context "rest: drop %s: %w" (qualified_name t id ∷ []) (drop_table t cfg at detached id)
      registered ← attempt (register_table t cfg at detached id new false)
      after_register registered

  unfoldable pub load_mode : Action (Client t × W) SwapMode
  load_mode (c, w) = (ok c.swap_mode, (c, w))

  unfoldable pub store_mode : SwapMode → Action (Client t × W) (Unit {0})
  store_mode mode (c, w) = (ok tt, (record c { swap_mode = mode }, w))

  module _ (cfg : Config) (at : Url × Bytes) (id : Identifier) (old new : Bytes) where
    abbrev pub atomic_failure : Error → Error
    atomic_failure e =
        wrapf "rest: atomic register %s -> %s failed: %w" (qualified_name t id ∷ text new ∷ []) e

    -- what the probe makes of the result of the atomic register call
    unfoldable pub after_probe : Result (Unit {0}) → Action (Client t × W) (Unit {0})
    unfolding store_mode call swap_by_drop_register is_already_exists is_bad_request
    after_probe (ok _) = store_mode mode_atomic
    after_probe (err e) =
        if is_already_exists e
        then (do store_mode mode_drop_register; call t (swap_by_drop_register cfg at id old new))
        else if is_bad_request e
        then call t (swap_by_drop_register cfg at id old new)
        else fail (atomic_failure e)

    -- the switch on the swap mode
    unfoldable pub swap_in : SwapMode → Action (Client t × W) (Unit {0})
    unfolding after_probe
    swap_in mode_atomic =
        context "rest: atomic register %s -> %s failed: %w" (qualified_name t id ∷ text new ∷ [])
          (call t (register_table t cfg at caller id new true))
    swap_in mode_drop_register = call t (swap_by_drop_register cfg at id old new)
    swap_in mode_unknown = do
      probed ← call t (attempt (register_table t cfg at caller id new true))
      after_probe probed

  -- `SwapMetadataLocation` from the drift check on
  unfoldable pub swap_loaded : Identifier → Bytes → Bytes → Table → Action (Client t × W) (Unit {0})
  unfolding load_mode swap_in
  swap_loaded id old new current =
      if current.metadata_location == old
      then (do at ← init t; cfg ← config_of t; mode ← load_mode; swap_in cfg at id old new mode)
      else fail (
          wrapf "%w: pointer is %q, expected %q" (text current.metadata_location ∷ text old ∷ [])
            (sentinel catalog_drift))

  -- `SwapMetadataLocation`
  unfoldable pub swap_metadata_location :
      Identifier → Bytes → Bytes → Action (Client t × W) (Unit {0})
  unfolding swap_loaded
  swap_metadata_location id old new =
      if old == []
      then fail (errorf "rest: SwapMetadataLocation: oldLocation must not be empty" [])
      else if new == []
      then fail (errorf "rest: SwapMetadataLocation: newLocation must not be empty" [])
      else if old == new
      then pure tt
      else (do
        init t
        current ←
            context "rest: pre-swap reload %s: %w" (qualified_name t id ∷ []) (load_table t id)
        swap_loaded id old new current)
