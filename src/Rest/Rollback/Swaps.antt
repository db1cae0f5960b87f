-- ===== src/Rest/Rollback/Swaps.antt =====
-- internal/catalog/rest/rest.go: `SwapMetadataLocation` on a server that takes back a location that it
-- has held, and the client as an implementation of the contract in internal/catalog/catalog.go.
use mathlib.Core.Path.{subst}
use bergrebase.Base.{
  Action, Bool-cases, Bytes, Ends, Ends-weaken, Ensures, Ensures-bind, Ensures-context,
  Ensures-fail, Ensures-if, Ensures-of_Ends, Ensures-pure, Error, Keeps, Keeps-attempt, OnResult,
  Option, Result, [], ap, err, inl, inr, int_eq, list_beq_iff, list_eq, nat_eq, none, ok,
  ok-injective, refl, some, sym, true, ◌==◌, ◌∙◌, ◌≡◌,
}
use bergrebase.Catalog.{Identifier, Table}
use bergrebase.Catalog.Contract.{Contract, NotSwapped}
use bergrebase.Rest.{
  caller, Transport, Config, Client, call, SwapMode, mode_unknown, mode_atomic, mode_drop_register,
  is_already_exists, is_bad_request,
}
use bergrebase.Rest.Requests.{init, config_of, load_table}
use bergrebase.Rest.Server.{Serves}
use bergrebase.Rest.Loading.{init-Started, config_of-Started}
use bergrebase.Rest.Swap.{
  swap_by_drop_register, load_mode, store_mode, after_probe, swap_in, swap_loaded,
  swap_metadata_location,
}
use bergrebase.Rest.Implementation.{
  Up, store_mode-Up, catalog_of, pointer_of, loads_lem, swaps_lem, stays_lem, catalog_of-BestEffort,
}
use bergrebase.Rest.Rollback.{Restores, There, register-There, swap_by_drop_register-There}

module _ {W : Type 0} (t : Transport W) (cfg : Config) (at : t.Url × Bytes) (id : Identifier)
    (pointer : W → Option Bytes) (s : Serves t cfg at id pointer) (valid : Bytes → Type 0)
    (r : Restores t cfg at id pointer valid) where
  -- The client is set up, and the catalog has the table.
  abbrev Present : Client t × W → Type 0
  Present (c, w) = Up t cfg at (c, w) × There t cfg at id pointer s valid r w

  call-Present :
      {A : Type 0} (m : Action W A)
      → Keeps (There t cfg at id pointer s valid r) m
      → Keeps Present (call t m)
  unfolding call
  call-Present m k = record { keeps = λ (c, w) (up, h). (up, k.keeps w h); returns = λ w a h e. tt }

  init-Present : Ensures Present (λ base. base ≡ at) (init t)
  init-Present = record {
    keeps = λ (c, w) (up, h). rw (init-Started t cfg at c w up) (up, h);
    returns = λ (c, w) base (up, h) e.
        let ran : (init t (c, w)).0 ≡ ok at =
          ap (λ (x : Result (t.Url × Bytes) × (Client t × W)). x.0)
            (init-Started t cfg at c w up) in
        sym (ok-injective (sym ran ∙ e));
  }

  config_of-Present : Ensures Present (λ c. c ≡ cfg) (config_of t)
  config_of-Present = record {
    keeps = λ (c, w) (up, h). rw (config_of-Started t cfg at c w up) (up, h);
    returns = λ (c, w) found (up, h) e.
        let ran : (config_of t (c, w)).0 ≡ ok cfg =
          ap (λ (x : Result Config × (Client t × W)). x.0) (config_of-Started t cfg at c w up) in
        sym (ok-injective (sym ran ∙ e));
  }

  load_mode-Present : Keeps Present (load_mode t)
  unfolding load_mode
  load_mode-Present = record { keeps = λ (c, w) h. h; returns = λ w a h e. tt }

  store_mode-Present : (mode : SwapMode) → Keeps Present (store_mode t mode)
  unfolding store_mode
  store_mode-Present mode = record {
    keeps = λ (c, w) (up, h). ((store_mode-Up t cfg at mode).keeps (c, w) up, h);
    returns = λ w a h e. tt;
  }

  -- A table that is loaded has a valid location.
  load_table-Present :
      Ensures Present (λ (table : Table). valid table.metadata_location) (load_table t id)
  load_table-Present = Ensures-of_Ends Present _ (load_table t id) λ (c, w) (up, (l, h)).
      Ends-weaken (load_table t id) (c, w)
        (λ table (d, w').
          Up t cfg at (d, w')
          × (pointer w' ≡ pointer w)
          × (pointer w ≡ some table.metadata_location))
        (λ table p. Present p × valid table.metadata_location)
        (λ e (d, w'). Up t cfg at (d, w') × (pointer w' ≡ pointer w)) (λ e p. Present p)
        (loads_lem t cfg at id pointer s (c, w) up)
        (λ table (d, w') (up', kept, there).
          ((up', (l, kept ∙ h)), r.held w table.metadata_location there))
        (λ e (d, w') (up', kept). (up', (l, kept ∙ h)))

  module _ (old new : Bytes) (good : valid old) where
    by_drop-Present : Keeps Present (call t (swap_by_drop_register t cfg at id old new))
    by_drop-Present =
        call-Present (swap_by_drop_register t cfg at id old new)
          (swap_by_drop_register-There t cfg at id pointer s valid r old new good)

    after_probe-Present :
        (x : Result (Unit {0})) → Keeps Present (after_probe t cfg at id old new x)
    unfolding after_probe
    after_probe-Present (ok u) = store_mode-Present mode_atomic
    after_probe-Present (err e) =
        Ensures-if (is_already_exists e) _ _
          (λ _. Ensures-bind _ _ (store_mode-Present mode_drop_register) λ _ _. by_drop-Present)
          (λ _. Ensures-if (is_bad_request e) _ _ (λ _. by_drop-Present) (λ _. Ensures-fail _))

    swap_in-Present : (mode : SwapMode) → Keeps Present (swap_in t cfg at id old new mode)
    unfolding swap_in
    swap_in-Present mode_atomic =
        Ensures-context _ _ _
          (call-Present _ (register-There t cfg at id pointer s valid r caller new true))
    swap_in-Present mode_drop_register = by_drop-Present
    swap_in-Present mode_unknown =
        Ensures-bind _ _
          (call-Present _
            (Keeps-attempt _ (register-There t cfg at id pointer s valid r caller new true)))
          λ x _. after_probe-Present x

  -- A swap whose old location is not that of the table that it loads has failed before any write.
  swap_loaded-Present :
      (old new : Bytes) (table : Table)
      → valid table.metadata_location
      → Keeps Present (swap_loaded t id old new table)
  unfolding swap_loaded
  swap_loaded-Present old new table good =
      Ensures-if (table.metadata_location == old) _ _
        (λ same.
          let good_old : valid old =
            rw ((list_beq_iff table.metadata_location old).0 same) at good in
          Ensures-bind _ _ init-Present λ base here. Ensures-bind _ _ config_of-Present λ c mine.
            Ensures-bind _ _ load_mode-Present
              λ mode _. rw (here, mine) (swap_in-Present old new good_old mode))
        (λ _. Ensures-fail _)

  -- A swap, successful or not, never loses the table.
  swap_metadata_location-Present :
      (old new : Bytes) → Keeps Present (swap_metadata_location t id old new)
  unfolding swap_metadata_location
  swap_metadata_location-Present old new =
      Ensures-if (old == []) _ _ (λ _. Ensures-fail _)
        (λ _.
          Ensures-if (new == []) _ _ (λ _. Ensures-fail _)
            (λ _.
              Ensures-if (old == new) _ _ (λ _. Ensures-pure tt tt)
                (λ _. Ensures-bind _ _ init-Present λ _ _.
                  Ensures-bind _ _ (Ensures-context _ _ _ load_table-Present)
                    λ table good. swap_loaded-Present old new table good)))

  -- Where the table was there and is there, the pointer is not gone.
  not_swapped :
      (e : Error) (p q : Option Bytes)
      → NotSwapped p e q
      → ((l : Bytes) → p ≡ some l → (k : Bytes) × (q ≡ some k))
      → q ≡ p
  not_swapped e p q (inl same) h = same
  not_swapped e none q (inr (gone, _)) h = gone
  not_swapped e (some l) q (inr (gone, _)) h =
      let (k, there) = h l refl in absurd (cc (gone, there))

  abbrev Kept : Client t × W → Unit {0} → Client t × W → Type 0
  Kept p u q = Up t cfg at q × (pointer q.1 ≡ pointer p.1)

  abbrev Moved : Bytes → Bytes → Client t × W → Unit {0} → Client t × W → Type 0
  Moved old new p u q = Up t cfg at q × (pointer p.1 ≡ some old) × (pointer q.1 ≡ some new)

  rolled_back :
      (old new : Bytes) (p p' : Client t × W) (e : Error)
      → Up t cfg at p
      → swap_metadata_location t id old new p ≡ (err e, p')
      → pointer p'.1 ≡ pointer p.1
  rolled_back old new p p' e up run = elim (Bool-cases (old == new)) [
    | inl same ↦
        let E : Error → Client t × W → Type 0 = λ x q. pointer q.1 ≡ pointer p.1 in
        failed_as (Kept p) E (
          subst (λ l. Ends (swap_metadata_location t id old l) p (Kept p) E)
            ((list_beq_iff old new).0 same) (stays_lem t cfg at id pointer s old p up))
    | inr differs ↦
        not_swapped e (pointer p.1) (pointer p'.1)
          (failed_as (Moved old new p) (λ x q. NotSwapped (pointer p.1) x (pointer q.1))
            (swaps_lem t cfg at id pointer s old new p up
              (λ same. absurd (cc ((list_beq_iff old new).1 same, differs)))))
          (λ l h. still l h)
  ]
    where
      failed_as :
          (Q : Unit {0} → Client t × W → Type 0) (E : Error → Client t × W → Type 0)
          → Ends (swap_metadata_location t id old new) p Q E
          → E e p'
      failed_as Q E h = subst (OnResult Q E) run h

      still : (l : Bytes) → pointer p.1 ≡ some l → (k : Bytes) × (pointer p'.1 ≡ some k)
      still l h =
          let now : Present (swap_metadata_location t id old new p).1 =
            (swap_metadata_location-Present old new).keeps p (up, (l, h)) in
          let moved : (swap_metadata_location t id old new p).1 ≡ p' =
            ap (λ (x : Result (Unit {0}) × (Client t × W)). x.1) run in
          (rw moved at now).1

  -- On a server with the laws of `Serves` and of `Restores`, the REST client that has been set up
  -- keeps the contract of a catalog: a load gives the location and leaves it; a swap that succeeds
  -- has found the pointer at the old location and left it at the new one, or was asked to swap a
  -- location for itself and left it; and a swap that fails has left the pointer as it was, or
  -- rolled it back.
  pub catalog_of-Contract :
      Contract (catalog_of t) (Up t cfg at) id (pointer_of t cfg at id pointer s)
  catalog_of-Contract = record {
    effort = catalog_of-BestEffort t cfg at id pointer s;
    rolls_back = rolled_back;
  }
