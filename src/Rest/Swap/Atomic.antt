-- ===== src/Rest/Swap/Atomic.antt =====
-- A client that knows the catalog to swap atomically never drops a table.
use bergrebase.Base.{
  Action, Always, Bool, Bytes, Ensures, Ensures-bind, Ensures-context, Ensures-fail, Ensures-if,
  Ensures-lift, Ensures-pure, Keeps, Option, Option-cases, Result, [], inl, inr, int_eq, list_eq,
  nat_eq, none, ok, true, ◌==◌, ◌≡◌, ◌≢◌,
}
use bergrebase.Catalog.{Identifier, Table}
use bergrebase.Rest.{
  Method, get_method, delete_method, post_method, Context, caller, RegisterBody, Request, Transport,
  Config, Client, call, do_request, SwapMode, mode_atomic,
}
use bergrebase.Rest.Requests.{
  init, init_from, remember, start, fetch_config, config_of, load_table, register_table,
}
use bergrebase.Rest.Swap.{load_mode, swap_in, swap_loaded, swap_metadata_location}

-- Every request but a DELETE leaves `P` alone.
abbrev pub KeptUndropped : {W : Type 0} → Transport W → (W → Type 0) → Type 0
KeptUndropped t P =
    (ctx : Context) (req : Request t.Url) → req.method ≢ delete_method → Keeps P (t.send ctx req)

get-ne-delete : get_method ≢ delete_method
get-ne-delete h = absurd (cc)

post-ne-delete : post_method ≢ delete_method
post-ne-delete h = absurd (cc)

module _ {W : Type 0} (t : Transport W) (P : W → Type 0) (kept : KeptUndropped t P) where
  request-Keeps :
      {A : Type 0} (cfg : Config) (ctx : Context) (method : Method) (url : t.Url)
      (body : Option RegisterBody) (blank : A) (decode : Bytes → Result A)
      → method ≢ delete_method
      → Keeps P (do_request t cfg ctx method url body blank decode)
  unfolding do_request
  request-Keeps cfg ctx method url body blank decode ne =
      Ensures-bind _ _ (kept ctx _ ne) λ resp _. Ensures-lift _ (λ _ _. tt)

  -- The client is in the atomic mode.
  abbrev pub InAtomic : Client t × W → Type 0
  InAtomic (c, w) = (c.swap_mode ≡ mode_atomic) × P w

  call-InAtomic : {A : Type 0} (m : Action W A) → Keeps P m → Keeps InAtomic (call t m)
  unfolding call
  call-InAtomic m k = record {
    keeps = λ (c, w) (mode, p). (mode, k.keeps w p);
    returns = λ w a h e. tt;
  }

  start-Keeps : (cfg : Config) → Keeps P (start t cfg)
  unfolding start fetch_config
  start-Keeps cfg = Ensures-bind {Q = Always} _ _ (Ensures-lift _ (λ _ _. tt)) λ base _.
      Ensures-bind _ _
        (Ensures-context _ _ _ (request-Keeps cfg caller get_method _ none _ _ get-ne-delete))
        λ conf _. Ensures-pure _ tt

  init-InAtomic : Keeps InAtomic (init t)
  unfolding init init_from remember
  init-InAtomic = record { keeps = λ (c, w) h. set_up c w h; returns = λ w a h e. tt }
    where
      set_up : (c : Client t) (w : W) → InAtomic (c, w) → InAtomic (init t (c, w)).1
      set_up c w (mode, p) = elim (Option-cases c.ready) [
        | inl e ↦ rw (e, init_from) (mode, (start-Keeps c.cfg).keeps w p)
        | inr (r, e) ↦ rw (e, init_from) (mode, p)
      ]

  config_of-InAtomic : Keeps InAtomic (config_of t)
  unfolding config_of
  config_of-InAtomic = record { keeps = λ (c, w) h. h; returns = λ w a h e. tt }

  load_mode-InAtomic : Ensures InAtomic (λ mode. mode ≡ mode_atomic) (load_mode t)
  unfolding load_mode
  load_mode-InAtomic = record {
    keeps = λ (c, w) h. h;
    returns = λ (c, w) mode (atomic, p) e. let same : c.swap_mode ≡ mode = cc e in cc;
  }

  register-Keeps :
      (cfg : Config) (at : t.Url × Bytes) (ctx : Context) (id : Identifier) (loc : Bytes)
      (over : Bool)
      → Keeps P (register_table t cfg at ctx id loc over)
  unfolding register_table
  register-Keeps cfg at ctx id loc over =
      request-Keeps cfg ctx post_method _ _ tt (λ _. ok tt) post-ne-delete

  load_table-InAtomic : (id : Identifier) → Keeps InAtomic (load_table t id)
  unfolding load_table
  load_table-InAtomic id = Ensures-bind _ _ init-InAtomic λ at _.
      Ensures-bind _ _ config_of-InAtomic λ cfg _.
        Ensures-bind _ _
          (Ensures-context _ _ _
            (call-InAtomic _ (request-Keeps cfg caller get_method _ none _ _ get-ne-delete)))
          λ resp _. Ensures-lift _ (λ _ _. tt)

  swap_in-InAtomic :
      (cfg : Config) (at : t.Url × Bytes) (id : Identifier) (old new : Bytes) (mode : SwapMode)
      → mode ≡ mode_atomic
      → Keeps InAtomic (swap_in t cfg at id old new mode)
  unfolding swap_in
  swap_in-InAtomic cfg at id old new mode e =
      rw e (Ensures-context _ _ _ (call-InAtomic _ (register-Keeps cfg at caller id new true)))

  swap_loaded-InAtomic :
      (id : Identifier) (old new : Bytes) (table : Table)
      → Keeps InAtomic (swap_loaded t id old new table)
  unfolding swap_loaded
  swap_loaded-InAtomic id old new table =
      Ensures-if (table.metadata_location == old) _ _
        (λ _. Ensures-bind _ _ init-InAtomic λ at _. Ensures-bind _ _ config_of-InAtomic λ cfg _.
          Ensures-bind _ _ load_mode-InAtomic λ mode e. swap_in-InAtomic cfg at id old new mode e)
        (λ _. Ensures-fail _)

  -- A swap in the atomic mode, successful or not, stays in that mode and keeps every property of the
  -- catalog that all requests but a DELETE keep.
  pub swap_metadata_location-InAtomic :
      (id : Identifier) (old new : Bytes) → Keeps InAtomic (swap_metadata_location t id old new)
  unfolding swap_metadata_location
  swap_metadata_location-InAtomic id old new =
      Ensures-if (old == []) _ _ (λ _. Ensures-fail _)
        (λ _.
          Ensures-if (new == []) _ _ (λ _. Ensures-fail _)
            (λ _.
              Ensures-if (old == new) _ _ (λ _. Ensures-pure tt tt)
                (λ _. Ensures-bind _ _ init-InAtomic λ _ _.
                  Ensures-bind _ _ (Ensures-context _ _ _ (load_table-InAtomic id))
                    λ table _. swap_loaded-InAtomic id old new table)))
