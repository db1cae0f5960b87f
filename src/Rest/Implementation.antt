-- ===== src/Rest/Implementation.antt =====
-- internal/catalog/rest/rest.go: the client as a `catalog.Catalog`, and what it does for a table.
use bergrebase.Base.{
  ==_refl, Action, Bytes, Ends, Ends-if, Ends-keeping, Ends-weaken, Ensures-bind, Ensures-context,
  Ensures-fail, Ensures-if, Ensures-lift, Ensures-pure, Error, Keeps, Option, Result, [], err, fail,
  int_eq, list_eq, nat_eq, ok, pure, refl, some, ◌==◌, ◌≡◌, ◌≢◌,
}
use bergrebase.Catalog.{Identifier, Table, Catalog}
use bergrebase.Catalog.Contract.{BestEffort, NotSwapped}
use bergrebase.Rest.{
  Transport, Config, Client, call, SwapMode, mode_unknown, mode_atomic, mode_drop_register,
  is_already_exists, is_bad_request,
}
use bergrebase.Rest.Requests.{init, config_of, list_namespaces, list_tables, load_table}
use bergrebase.Rest.Server.{Serves}
use bergrebase.Rest.Loading.{Started, Loaded, init-Started, config_of-Started, load_table-Ends}
use bergrebase.Rest.Swap.{
  load_mode, store_mode, after_probe, swap_in, swap_loaded, swap_metadata_location,
}
use bergrebase.Rest.Swap.Exchange.{Exchanged, Refused, swap_metadata_location-Ends}

-- `var _ catalog.Catalog = (*Client)(nil)`
abbrev pub catalog_of : {W : Type 0} (t : Transport W) → Catalog (Client t × W)
catalog_of t = record {
  list_namespaces = list_namespaces t;
  list_tables = list_tables t;
  load_table = load_table t;
  swap_metadata_location = swap_metadata_location t;
}

module _ {W : Type 0} (t : Transport W) (cfg : Config) (at : t.Url × Bytes) where
  abbrev pub Up : Client t × W → Type 0
  Up (c, w) = Started t cfg at c

  call-Up : {A : Type 0} (m : Action W A) → Keeps Up (call t m)
  unfolding call
  call-Up m = record { keeps = λ (c, w) h. h; returns = λ w a h e. tt }

  init-Up : Keeps Up (init t)
  init-Up = record {
    keeps = λ (c, w) h. rw (init-Started t cfg at c w h) h;
    returns = λ w a h e. tt;
  }

  config_of-Up : Keeps Up (config_of t)
  config_of-Up = record {
    keeps = λ (c, w) h. rw (config_of-Started t cfg at c w h) h;
    returns = λ w a h e. tt;
  }

  pub store_mode-Up : (mode : SwapMode) → Keeps Up (store_mode t mode)
  unfolding store_mode
  store_mode-Up mode = record {
    keeps = λ (c, w) h. record { ready_at = h.ready_at; configured = h.configured };
    returns = λ w a h e. tt;
  }

  load_mode-Up : Keeps Up (load_mode t)
  unfolding load_mode
  load_mode-Up = record { keeps = λ (c, w) h. h; returns = λ w a h e. tt }

  load_table-Up : (id : Identifier) → Keeps Up (load_table t id)
  unfolding load_table
  load_table-Up id = Ensures-bind _ _ init-Up λ at _. Ensures-bind _ _ config_of-Up λ cfg _.
      Ensures-bind _ _ (Ensures-context _ _ _ (call-Up _)) λ resp _. Ensures-lift _ (λ _ _. tt)

  after_probe-Up :
      (c : Config) (base : t.Url × Bytes) (id : Identifier) (old new : Bytes)
      (r : Result (Unit {0}))
      → Keeps Up (after_probe t c base id old new r)
  unfolding after_probe
  after_probe-Up c base id old new (ok u) = store_mode-Up mode_atomic
  after_probe-Up c base id old new (err e) =
      Ensures-if (is_already_exists e) _ _
        (λ _. Ensures-bind _ _ (store_mode-Up mode_drop_register) λ _ _. call-Up _)
        (λ _. Ensures-if (is_bad_request e) _ _ (λ _. call-Up _) (λ _. Ensures-fail _))

  swap_in-Up :
      (c : Config) (base : t.Url × Bytes) (id : Identifier) (old new : Bytes) (mode : SwapMode)
      → Keeps Up (swap_in t c base id old new mode)
  unfolding swap_in
  swap_in-Up c base id old new mode_atomic = Ensures-context _ _ _ (call-Up _)
  swap_in-Up c base id old new mode_drop_register = call-Up _
  swap_in-Up c base id old new mode_unknown =
      Ensures-bind _ _ (call-Up _) λ r _. after_probe-Up c base id old new r

  swap_loaded-Up :
      (id : Identifier) (old new : Bytes) (table : Table)
      → Keeps Up (swap_loaded t id old new table)
  unfolding swap_loaded
  swap_loaded-Up id old new table =
      Ensures-if (table.metadata_location == old) _ _
        (λ _. Ensures-bind _ _ init-Up λ base _.
          Ensures-bind _ _ config_of-Up
            λ c _. Ensures-bind _ _ load_mode-Up λ mode _. swap_in-Up c base id old new mode)
        (λ _. Ensures-fail _)

  -- A swap leaves the client set up, whatever comes of it.
  swap_metadata_location-Up :
      (id : Identifier) (old new : Bytes) → Keeps Up (swap_metadata_location t id old new)
  unfolding swap_metadata_location
  swap_metadata_location-Up id old new =
      Ensures-if (old == []) _ _ (λ _. Ensures-fail _)
        (λ _.
          Ensures-if (new == []) _ _ (λ _. Ensures-fail _)
            (λ _.
              Ensures-if (old == new) _ _ (λ _. Ensures-pure tt tt)
                (λ _. Ensures-bind _ _ init-Up λ _ _.
                  Ensures-bind _ _ (Ensures-context _ _ _ (load_table-Up id))
                    λ table _. swap_loaded-Up id old new table)))

module _ {W : Type 0} (t : Transport W) (cfg : Config) (at : t.Url × Bytes) (id : Identifier)
    (pointer : W → Option Bytes) (s : Serves t cfg at id pointer) where
  abbrev pub pointer_of : Client t × W → Option Bytes
  pointer_of (c, w) = pointer w

  pub loads_lem :
      (w : Client t × W)
      → Up t cfg at w
      → Ends
          (load_table t id)
          w
          (λ table w'.
            Up t cfg at w'
            × (pointer_of w' ≡ pointer_of w)
            × (pointer_of w ≡ some table.metadata_location))
          (λ e w'. Up t cfg at w' × (pointer_of w' ≡ pointer_of w))
  loads_lem (c, w) up =
      let m = load_table t id in
      let Q = Loaded t pointer c w in
      let E : Error → Client t × W → Type 0 = λ e (d, w'). pointer w' ≡ pointer w in
      Ends-weaken m (c, w) (λ table w'. Up t cfg at w' × Q table w')
        (λ table (d, w').
          Started t cfg at d
          × (pointer w' ≡ pointer w)
          × (pointer w ≡ some table.metadata_location))
        (λ e w'. Up t cfg at w' × E e w') (λ e w'. Up t cfg at w' × E e w')
        (Ends-keeping (Up t cfg at) m (c, w) Q E (load_table-Up t cfg at id) up
          (load_table-Ends t cfg at id pointer s c w up))
        (λ table (d, w') (ready, (same, kept, there)). (ready, kept, there)) (λ e w' h. h)

  pub swaps_lem :
      (old new : Bytes) (w : Client t × W)
      → Up t cfg at w
      → old ≢ new
      → Ends
          (swap_metadata_location t id old new)
          w
          (λ u w'. Up t cfg at w' × (pointer_of w ≡ some old) × (pointer_of w' ≡ some new))
          (λ e w'. NotSwapped (pointer_of w) e (pointer_of w'))
  swaps_lem old new (c, w) up ne =
      let m = swap_metadata_location t id old new in
      let Q = Exchanged t cfg at id pointer s old new (pointer w) in
      let E = Refused t cfg at id pointer s old new (pointer w) in
      Ends-weaken m (c, w) (λ u w'. Up t cfg at w' × Q u w')
        (λ u (d, w'). Started t cfg at d × (pointer w ≡ some old) × (pointer w' ≡ some new))
        (λ e w'. Up t cfg at w' × E e w') E
        (Ends-keeping (Up t cfg at) m (c, w) Q E (swap_metadata_location-Up t cfg at id old new) up
          (swap_metadata_location-Ends t cfg at id pointer s old new c w up ne))
        (λ u (d, w') (ready, (was, now)). (ready, was, now)) (λ e w' (_, h). h)

  pub stays_lem :
      (old : Bytes) (w : Client t × W)
      → Up t cfg at w
      → Ends
          (swap_metadata_location t id old old)
          w
          (λ u w'. Up t cfg at w' × (pointer_of w' ≡ pointer_of w))
          (λ e w'. pointer_of w' ≡ pointer_of w)
  unfolding swap_metadata_location fail pure
  stays_lem old (c, w) up =
      let Q : Unit {0} → Client t × W → Type 0 =
        λ u (d, w'). Started t cfg at d × (pointer w' ≡ pointer w) in
      let E : Error → Client t × W → Type 0 = λ e (d, w'). pointer w' ≡ pointer w in
      Ends-if (old == []) _ _ (c, w) Q E (λ _. refl)
        (λ _.
          Ends-if (old == []) _ _ (c, w) Q E (λ _. refl)
            (λ _.
              Ends-if (old == old) _ _ (c, w) Q E (λ _. (up, refl))
                (λ differs. absurd (cc (==_refl old, differs)))))

  -- On a server with the laws of `Serves`, the REST client that has been set up exchanges the
  -- pointer, or leaves it, or reports that it is gone.
  pub catalog_of-BestEffort : BestEffort (catalog_of t) (Up t cfg at) id pointer_of
  catalog_of-BestEffort = record { loads = loads_lem; swaps = swaps_lem; stays = stays_lem }
