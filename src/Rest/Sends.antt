-- ===== src/Rest/Sends.antt =====
-- What all requests leave alone, every operation of the client leaves alone.
use bergrebase.Base.{
  Action, Always, Bool, Bytes, Ensures-bind, Ensures-context, Ensures-fail, Ensures-if,
  Ensures-lift, Ensures-pure, Error, Keeps, Keeps-attempt, Option, Option-cases, Result, [], err,
  false, inl, inr, int_eq, list_eq, nat_eq, ok, true, ◌==◌,
}
use bergrebase.Catalog.{Namespace, Identifier, Table}
use bergrebase.Rest.{
  Method, Context, RegisterBody, Request, Transport, Config, Client, call, do_request, SwapMode,
  mode_unknown, mode_atomic, mode_drop_register, is_already_exists, is_bad_request,
}
use bergrebase.Rest.Requests.{
  init, init_from, remember, start, fetch_config, config_of, list_namespaces, list_tables,
  load_table, drop_table, register_table,
}
use bergrebase.Rest.Swap.{
  after_rollback, after_register, swap_by_drop_register, load_mode, store_mode, after_probe,
  swap_in, swap_loaded, swap_metadata_location,
}

module _ {W : Type 0} (t : Transport W) (P : W → Type 0)
    (sends : (ctx : Context) (req : Request t.Url) → Keeps P (t.send ctx req)) where
  request-Keeps :
      {A : Type 0} (cfg : Config) (ctx : Context) (method : Method) (url : t.Url)
      (body : Option RegisterBody) (blank : A) (decode : Bytes → Result A)
      → Keeps P (do_request t cfg ctx method url body blank decode)
  unfolding do_request
  request-Keeps cfg ctx method url body blank decode =
      Ensures-bind _ _ (sends ctx _) λ resp _. Ensures-lift _ (λ _ _. tt)

  -- `P`, with the client beside it
  abbrev pub Net : Client t × W → Type 0
  Net (c, w) = P w

  call-Net : {A : Type 0} (m : Action W A) → Keeps P m → Keeps Net (call t m)
  unfolding call
  call-Net m k = record { keeps = λ (c, w) p. k.keeps w p; returns = λ w a h e. tt }

  start-Keeps : (cfg : Config) → Keeps P (start t cfg)
  unfolding start fetch_config
  start-Keeps cfg = Ensures-bind {Q = Always} _ _ (Ensures-lift _ (λ _ _. tt)) λ base _.
      Ensures-bind _ _ (Ensures-context _ _ _ (request-Keeps cfg _ _ _ _ _ _))
        λ conf _. Ensures-pure _ tt

  init-Net : Keeps Net (init t)
  unfolding init init_from remember
  init-Net = record { keeps = λ (c, w) h. set_up c w h; returns = λ w a h e. tt }
    where
      set_up : (c : Client t) (w : W) → P w → Net (init t (c, w)).1
      set_up c w p = elim (Option-cases c.ready) [
        | inl e ↦ rw (e, init_from) ((start-Keeps c.cfg).keeps w p)
        | inr (r, e) ↦ rw (e, init_from) p
      ]

  config_of-Net : Keeps Net (config_of t)
  unfolding config_of
  config_of-Net = record { keeps = λ (c, w) h. h; returns = λ w a h e. tt }

  store_mode-Net : (mode : SwapMode) → Keeps Net (store_mode t mode)
  unfolding store_mode
  store_mode-Net mode = record { keeps = λ (c, w) h. h; returns = λ w a h e. tt }

  load_mode-Net : Keeps Net (load_mode t)
  unfolding load_mode
  load_mode-Net = record { keeps = λ (c, w) h. h; returns = λ w a h e. tt }

  pub list_namespaces-Net : (ns : Namespace) → Keeps Net (list_namespaces t ns)
  unfolding list_namespaces
  list_namespaces-Net ns = Ensures-bind _ _ init-Net λ at _.
      Ensures-bind _ _ config_of-Net
        λ cfg _. Ensures-context _ _ _ (call-Net _ (request-Keeps cfg _ _ _ _ _ _))

  pub list_tables-Net : (ns : Namespace) → Keeps Net (list_tables t ns)
  unfolding list_tables
  list_tables-Net ns = Ensures-bind _ _ init-Net λ at _.
      Ensures-bind _ _ config_of-Net
        λ cfg _. Ensures-context _ _ _ (call-Net _ (request-Keeps cfg _ _ _ _ _ _))

  pub load_table-Net : (id : Identifier) → Keeps Net (load_table t id)
  unfolding load_table
  load_table-Net id = Ensures-bind _ _ init-Net λ at _. Ensures-bind _ _ config_of-Net λ cfg _.
      Ensures-bind _ _ (Ensures-context _ _ _ (call-Net _ (request-Keeps cfg _ _ _ _ _ _)))
        λ resp _. Ensures-lift _ (λ _ _. tt)

  register-Keeps :
      (cfg : Config) (at : t.Url × Bytes) (ctx : Context) (id : Identifier) (loc : Bytes)
      (over : Bool)
      → Keeps P (register_table t cfg at ctx id loc over)
  unfolding register_table
  register-Keeps cfg at ctx id loc over = request-Keeps cfg ctx _ _ _ _ _

  drop-Keeps :
      (cfg : Config) (at : t.Url × Bytes) (ctx : Context) (id : Identifier)
      → Keeps P (drop_table t cfg at ctx id)
  unfolding drop_table
  drop-Keeps cfg at ctx id = request-Keeps cfg ctx _ _ _ _ _

  module _ (cfg : Config) (at : t.Url × Bytes) (id : Identifier) (old new : Bytes) where
    after_rollback-Keeps :
        (e : Error) (r : Result (Unit {0})) → Keeps P (after_rollback t id old new e r)
    unfolding after_rollback
    after_rollback-Keeps e (ok u) = Ensures-fail _
    after_rollback-Keeps e (err rb) = Ensures-fail _

    after_register-Keeps : (r : Result (Unit {0})) → Keeps P (after_register t cfg at id old new r)
    unfolding after_register
    after_register-Keeps (ok u) = Ensures-pure _ tt
    after_register-Keeps (err e) =
        Ensures-bind _ _ (Keeps-attempt _ (register-Keeps cfg at _ id old false))
          λ r _. after_rollback-Keeps e r

    swap_by_drop_register-Keeps : Keeps P (swap_by_drop_register t cfg at id old new)
    unfolding swap_by_drop_register
    swap_by_drop_register-Keeps =
        Ensures-bind _ _ (Ensures-context _ _ _ (drop-Keeps cfg at _ id)) λ _ _.
          Ensures-bind _ _ (Keeps-attempt _ (register-Keeps cfg at _ id new false))
            λ r _. after_register-Keeps r

    fallback-Net : Keeps Net (call t (swap_by_drop_register t cfg at id old new))
    fallback-Net = call-Net _ swap_by_drop_register-Keeps

    after_probe-Net : (r : Result (Unit {0})) → Keeps Net (after_probe t cfg at id old new r)
    unfolding after_probe
    after_probe-Net (ok u) = store_mode-Net mode_atomic
    after_probe-Net (err e) =
        Ensures-if (is_already_exists e) _ _
          (λ _. Ensures-bind _ _ (store_mode-Net mode_drop_register) λ _ _. fallback-Net)
          (λ _. Ensures-if (is_bad_request e) _ _ (λ _. fallback-Net) (λ _. Ensures-fail _))

    swap_in-Net : (mode : SwapMode) → Keeps Net (swap_in t cfg at id old new mode)
    unfolding swap_in
    swap_in-Net mode_atomic =
        Ensures-context _ _ _ (call-Net _ (register-Keeps cfg at _ id new true))
    swap_in-Net mode_drop_register = fallback-Net
    swap_in-Net mode_unknown =
        Ensures-bind _ _ (call-Net _ (Keeps-attempt _ (register-Keeps cfg at _ id new true)))
          λ r _. after_probe-Net r

  swap_loaded-Net :
      (id : Identifier) (old new : Bytes) (table : Table)
      → Keeps Net (swap_loaded t id old new table)
  unfolding swap_loaded
  swap_loaded-Net id old new table =
      Ensures-if (table.metadata_location == old) _ _
        (λ _. Ensures-bind _ _ init-Net λ at _.
          Ensures-bind _ _ config_of-Net
            λ cfg _. Ensures-bind _ _ load_mode-Net λ mode _. swap_in-Net cfg at id old new mode)
        (λ _. Ensures-fail _)

  pub swap_metadata_location-Net :
      (id : Identifier) (old new : Bytes) → Keeps Net (swap_metadata_location t id old new)
  unfolding swap_metadata_location
  swap_metadata_location-Net id old new =
      Ensures-if (old == []) _ _ (λ _. Ensures-fail _)
        (λ _.
          Ensures-if (new == []) _ _ (λ _. Ensures-fail _)
            (λ _.
              Ensures-if (old == new) _ _ (λ _. Ensures-pure tt tt)
                (λ _. Ensures-bind _ _ init-Net λ _ _.
                  Ensures-bind _ _ (Ensures-context _ _ _ (load_table-Net id))
                    λ table _. swap_loaded-Net id old new table)))
