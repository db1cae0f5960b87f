-- ===== src/Rest/Swap/Modes.antt =====
-- The cached swap mode: how it moves, and what a client in the atomic mode never sends.
use bergrebase.Base.{
  Action, Bytes, Ensures, Ensures-bind, Ensures-context, Ensures-fail, Ensures-if, Ensures-lift,
  Ensures-pure, Keeps, Option-cases, Result, [], err, inl, inr, int_eq, list_eq, nat_eq, ok, ◌==◌,
  ◌≡◌,
}
use bergrebase.Catalog.{Identifier, Table}
use bergrebase.Rest.{
  Transport, Config, Client, call, SwapMode, mode_unknown, mode_atomic, mode_drop_register,
  is_already_exists, is_bad_request,
}
use bergrebase.Rest.Requests.{init, init_from, remember, config_of, load_table}
use bergrebase.Rest.Swap.{
  load_mode, store_mode, after_probe, swap_in, swap_loaded, swap_metadata_location,
}

-- A probe tells a mode once; a mode that is known stays.
pub data ModeStep : SwapMode → SwapMode → Type 0 where
  stays : {mode : SwapMode} → ModeStep mode mode
  tells_atomic : ModeStep mode_unknown mode_atomic
  tells_drop_register : ModeStep mode_unknown mode_drop_register

probed :
    {mode : SwapMode}
    → ModeStep mode mode_unknown
    → ModeStep mode mode_atomic × ModeStep mode mode_drop_register
probed stays = (tells_atomic, tells_drop_register)

module _ {W : Type 0} (t : Transport W) (first : SwapMode) where
  -- The mode has moved at most once since it was `first`.
  abbrev Since : Client t × W → Type 0
  Since (c, w) = ModeStep first c.swap_mode

  call-Since : {A : Type 0} (m : Action W A) → Keeps Since (call t m)
  unfolding call
  call-Since m = record { keeps = λ (c, w) h. h; returns = λ w a h e. tt }

  init-Since : Keeps Since (init t)
  unfolding init init_from remember
  init-Since = record { keeps = λ (c, w) h. kept c w h; returns = λ w a h e. tt }
    where
      kept : (c : Client t) (w : W) → ModeStep first c.swap_mode → Since (init t (c, w)).1
      kept c w h = elim (Option-cases c.ready) [
        | inl e ↦ rw (e, init_from) h
        | inr (r, e) ↦ rw (e, init_from) h
      ]

  config_of-Since : Keeps Since (config_of t)
  unfolding config_of
  config_of-Since = record { keeps = λ (c, w) h. h; returns = λ w a h e. tt }

  load_mode-Since : Ensures Since (ModeStep first) (load_mode t)
  unfolding load_mode
  load_mode-Since = record {
    keeps = λ (c, w) h. h;
    returns = λ (c, w) mode h e. let same : c.swap_mode ≡ mode = cc e in rw (← same) h;
  }

  store_mode-Since : (mode : SwapMode) → ModeStep first mode → Keeps Since (store_mode t mode)
  unfolding store_mode
  store_mode-Since mode step = record { keeps = λ (c, w) h. step; returns = λ w a h e. tt }

  module _ (c : Config) (base : t.Url × Bytes) (id : Identifier) (old new : Bytes) where
    after_probe-Since :
        (r : Result (Unit {0}))
        → ModeStep first mode_unknown
        → Keeps Since (after_probe t c base id old new r)
    unfolding after_probe
    after_probe-Since (ok u) step = store_mode-Since mode_atomic (probed step).0
    after_probe-Since (err e) step =
        Ensures-if (is_already_exists e) _ _
          (λ _.
            Ensures-bind _ _ (store_mode-Since mode_drop_register (probed step).1)
              λ _ _. call-Since _)
          (λ _. Ensures-if (is_bad_request e) _ _ (λ _. call-Since _) (λ _. Ensures-fail _))

    swap_in-Since :
        (mode : SwapMode) → ModeStep first mode → Keeps Since (swap_in t c base id old new mode)
    unfolding swap_in
    swap_in-Since mode_atomic step = Ensures-context _ _ _ (call-Since _)
    swap_in-Since mode_drop_register step = call-Since _
    swap_in-Since mode_unknown step =
        Ensures-bind _ _ (call-Since _) λ r _. after_probe-Since r step

  load_table-Since : (id : Identifier) → Keeps Since (load_table t id)
  unfolding load_table
  load_table-Since id = Ensures-bind _ _ init-Since λ at _.
      Ensures-bind _ _ config_of-Since λ cfg _.
        Ensures-bind _ _ (Ensures-context _ _ _ (call-Since _)) λ resp _. Ensures-lift _ (λ _ _. tt)

  swap_loaded-Since :
      (id : Identifier) (old new : Bytes) (table : Table)
      → Keeps Since (swap_loaded t id old new table)
  unfolding swap_loaded
  swap_loaded-Since id old new table =
      Ensures-if (table.metadata_location == old) _ _
        (λ _. Ensures-bind _ _ init-Since λ base _. Ensures-bind _ _ config_of-Since λ c _.
          Ensures-bind _ _ load_mode-Since λ mode step. swap_in-Since c base id old new mode step)
        (λ _. Ensures-fail _)

  swap-Since :
      (id : Identifier) (old new : Bytes) → Keeps Since (swap_metadata_location t id old new)
  unfolding swap_metadata_location
  swap-Since id old new =
      Ensures-if (old == []) _ _ (λ _. Ensures-fail _)
        (λ _.
          Ensures-if (new == []) _ _ (λ _. Ensures-fail _)
            (λ _.
              Ensures-if (old == new) _ _ (λ _. Ensures-pure tt tt)
                (λ _. Ensures-bind _ _ init-Since λ _ _.
                  Ensures-bind _ _ (Ensures-context _ _ _ (load_table-Since id))
                    λ table _. swap_loaded-Since id old new table)))

-- A swap, successful or not, leaves the cached mode as it is, or moves it from unknown to one of the
-- other two.
pub swap_metadata_location-ModeStep :
    {W : Type 0} (t : Transport W) (id : Identifier) (old new : Bytes) (c : Client t) (w : W)
    → ModeStep c.swap_mode (swap_metadata_location t id old new (c, w)).1.0.swap_mode
swap_metadata_location-ModeStep t id old new c w =
    (swap-Since t c.swap_mode id old new).keeps (c, w) stays
