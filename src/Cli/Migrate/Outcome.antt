-- ===== src/Cli/Migrate/Outcome.antt =====
-- What `migrateOne` makes of the catalog's pointer, on a catalog whose rollback may fail.
use bergrebase.Base.{
  Action, Always, Bytes, Ends, Ends-bind, Ends-context, Ends-if, Ends-known, Ends-of_Ensures,
  Ends-pure, Ends-weaken, Error, Option, Result, [], ap, context, err, false, has_prefix, inl, inr,
  ok, refl, some, true, wrapf, ℤ, ◌>>=◌, ◌∙◌, ◌≡◌, ◌⊎◌,
}
use bergrebase.Storage.{Reads, WritesUnder}
use bergrebase.Catalog.{Identifier, Table, Catalog}
use bergrebase.Catalog.Contract.{BestEffort, NotSwapped}
use bergrebase.Catalog.Pointer.{load_table-Keeps, swap-Ends}
use bergrebase.Engine.{Engine, RewriteResult, rewrite_table}
use bergrebase.Engine.Writes.{Moved, rewrite_table_confined}
use bergrebase.Cli.{Config}
use bergrebase.Cli.Confined.{validate_after_swap-Keeps}
use bergrebase.Cli.Migrate.{validate_after_swap, swap_and_validate, migrate_one}

module _ {W : Type 0} (cat : Catalog W) (e : Engine W) (cfg : Config) (id : Identifier)
    (Ready : W → Type 0) (pointer : W → Option Bytes) (c : BestEffort cat Ready id pointer) where
  -- The validation that runs after a swap to `new` where the snapshot was `snap`.
  abbrev pub validation : Bytes → Option ℤ → Action W (Unit {0})
  validation new snap = validate_after_swap e.lib e.text_format e.target cat id new snap

  -- The load of a run from `start` tells the table, and the pointer is where it says.
  abbrev pub Told : W → Table → Type 0
  Told start table =
      ((cat.load_table id start).0 ≡ ok table) × (pointer start ≡ some table.metadata_location)

  -- Validation is switched off, or has started with the pointer at `new` and passed.
  abbrev pub Passed : Bytes → Option ℤ → W → Type 0
  Passed new snap after =
      (cfg.no_validate ≡ true)
      ⊎ ((between : W) × (pointer between ≡ some new)
          × (validation new snap between ≡ (ok tt, after)))

  -- Validation is switched on and has started with the pointer at `new`, and its error is this one.
  abbrev pub Refuted : Bytes → Option ℤ → Error → W → Type 0
  Refuted new snap x after =
      (cfg.no_validate ≡ false)
      × ((between : W) × (found : Error) × (pointer between ≡ some new)
          × (validation new snap between ≡ (err found, after))
          × (x ≡ wrapf "post-swap validation: %w" [] found))

  -- The pointer was under the target prefix and stays, or it was not and has moved to the rewritten
  -- document, which has passed.
  abbrev pub Migrated : W → W → Type 0
  Migrated start after =
      (table : Table) × Told start table
      × (((has_prefix table.metadata_location cfg.target_prefix ≡ true)
            × (pointer after ≡ pointer start))
          ⊎ ((new : Bytes) × (has_prefix table.metadata_location cfg.target_prefix ≡ false)
              × Moved e.opts.mapping table.metadata_location new
              × (pointer after ≡ some new)
              × Passed new table.current_snapshot_id after))

  -- The pointer is as it was, or gone with both failures reported, or it has moved and the
  -- validation afterwards has failed.
  abbrev pub NotMigrated : W → Error → W → Type 0
  NotMigrated start x after =
      NotSwapped (pointer start) x (pointer after)
      ⊎ ((table : Table) × Told start table
          × (new : Bytes) × Moved e.opts.mapping table.metadata_location new
          × (pointer after ≡ some new)
          × Refuted new table.current_snapshot_id x after)

  -- The catalog is ready and has the pointer `p`.
  abbrev pub At : Option Bytes → W → Type 0
  At p w = Ready w × (pointer w ≡ p)

  module _ (source_reads : (p : Option Bytes) → Reads (At p) e.source)
      (target_reads : (p : Option Bytes) → Reads (At p) e.target)
      (writes : (p : Option Bytes) → WritesUnder (At p) e.opts.mapping.target e.target)
      (live : e.opts.dry_run ≡ false) (really : cfg.dry_run ≡ false) where
    module _ (start : W) (table : Table) (told : Told start table)
        (elsewhere : has_prefix table.metadata_location cfg.target_prefix ≡ false) where
      abbrev old : Bytes
      old = table.metadata_location

      abbrev Done : Unit {0} → W → Type 0
      Done u after = Migrated start after

      abbrev Failed : Error → W → Type 0
      Failed x after = NotMigrated start x after

      not_swapped : (x : Error) (w : W) → NotSwapped (some old) x (pointer w) → Failed x w
      not_swapped x w h = inl (rw told.1 h)

      validated-Ends :
          (new : Bytes) (w : W)
          → Moved e.opts.mapping old new
          → cfg.no_validate ≡ false
          → At (some new) w
          → Ends
              (context "post-swap validation: %w" [] (validation new table.current_snapshot_id))
              w
              Done
              Failed
      validated-Ends new w moved on at =
          let m = validation new table.current_snapshot_id in
          let P = At (some new) in
          let keeps =
            validate_after_swap-Keeps e.lib e.text_format e.target (target_reads (some new)) cat id
              (load_table-Keeps cat id Ready pointer c (some new)) new table.current_snapshot_id in
          Ends-context "post-swap validation: %w" [] m w Done Failed (
            Ends-weaken m w (λ u w'. (P w' × Always u) × (m w ≡ (ok u, w'))) Done
              (λ x w'. P w' × (m w ≡ (err x, w')))
              (λ x w'. Failed (wrapf "post-swap validation: %w" [] x) w')
              (Ends-known m w (λ u w'. P w' × Always u) (λ x w'. P w')
                (Ends-of_Ensures P Always m w keeps at))
              (λ u w' (((r, now), _), run).
                (table, told, inr (new, elsewhere, moved, now, inr (w, at.1, run))))
              (λ x w' ((r, now), run).
                inr (table, told, new, moved, now, (on, (w, x, at.1, run, refl)))))

      swapped-Ends :
          (new : Bytes) (w : W)
          → At (some old) w
          → Ends
              (context "swap catalog pointer: %w" [] (cat.swap_metadata_location id old new))
              w
              (λ u. At (some new))
              Failed
      swapped-Ends new w at =
          let m = cat.swap_metadata_location id old new in
          Ends-context "swap catalog pointer: %w" [] m w (λ u. At (some new)) Failed
            (Ends-weaken m w (λ u. At (some new)) (λ u. At (some new))
              (λ x w'. NotSwapped (some old) x (pointer w'))
              (λ x w'. Failed (wrapf "swap catalog pointer: %w" [] x) w')
              (swap-Ends cat id Ready pointer c old new w at) (λ u w' q. q)
              (λ x w' q. not_swapped (wrapf "swap catalog pointer: %w" [] x) w' q))

      swap_and_validate-Ends :
          (res : RewriteResult) (w : W)
          → Moved e.opts.mapping old res.new_metadata_location
          → At (some old) w
          → Ends (swap_and_validate cat e cfg id table res) w Done Failed
      unfolding swap_and_validate
      swap_and_validate-Ends res w moved at =
          let new = res.new_metadata_location in
          Ends-if cfg.dry_run _ _ w Done Failed (λ dry. absurd (cc (really, dry)))
            (λ _.
              Ends-bind
                (context "swap catalog pointer: %w" [] (cat.swap_metadata_location id old new)) _ w
                (λ u. At (some new)) Done Failed (swapped-Ends new w at)
                (λ u w' now.
                  Ends-if cfg.no_validate _ _ w' Done Failed
                    (λ off.
                      Ends-pure tt w' Done Failed
                        (table, told, inr (new, elsewhere, moved, now.1, inl off)))
                    (λ on. validated-Ends new w' moved on now)))

      rewritten-Ends :
          (w : W)
          → At (some old) w
          → Ends
              (context "rewrite metadata: %w" [] (rewrite_table e old))
              w
              (λ (res : RewriteResult) w'.
                At (some old) w' × Moved e.opts.mapping old res.new_metadata_location)
              Failed
      rewritten-Ends w at =
          let P = At (some old) in
          let m = rewrite_table e old in
          let Q : RewriteResult → Type 0 =
            λ res. Moved e.opts.mapping old res.new_metadata_location in
          let keeps =
            rewrite_table_confined e (source_reads (some old)) (target_reads (some old))
              (writes (some old)) old live in
          Ends-context "rewrite metadata: %w" [] m w (λ res w'. P w' × Q res) Failed
            (Ends-weaken m w (λ res w'. P w' × Q res) (λ res w'. P w' × Q res) (λ x w'. P w')
              (λ x w'. Failed (wrapf "rewrite metadata: %w" [] x) w')
              (Ends-of_Ensures P Q m w keeps at) (λ res w' q. q)
              (λ x w' (r, q). not_swapped (wrapf "rewrite metadata: %w" [] x) w' (inl q)))

      loaded-Ends :
          (w : W)
          → At (some old) w
          → Ends
              (do
                res ← context "rewrite metadata: %w" [] (rewrite_table e old)
                swap_and_validate cat e cfg id table res)
              w
              Done
              Failed
      loaded-Ends w at =
          Ends-bind (context "rewrite metadata: %w" [] (rewrite_table e old)) _ w
            (λ (res : RewriteResult) w'.
              At (some old) w' × Moved e.opts.mapping old res.new_metadata_location)
            Done Failed (rewritten-Ends w at)
            (λ res w' (at', moved). swap_and_validate-Ends res w' moved at')

    -- On a catalog that loads and swaps as well as it can, whose pointer the storage does not touch,
    -- a live migration ends as follows. One that succeeds has loaded a table, with the pointer where
    -- it says, and has either found that location under the target prefix and left the pointer, or
    -- found it elsewhere and set the pointer to the rewritten document, whose location is the old
    -- one or the old one moved; and then either validation is switched off, or `validateAfterSwap`
    -- has run from a world with the new pointer, for the snapshot of the loaded table, and has
    -- returned nil. One that fails has left the pointer as it was, or none with both failures of
    -- the swap reported, or has set it to the rewritten document; and then validation is switched
    -- on, `validateAfterSwap` has so run and returned an error, and that error, wrapped, is the
    -- one returned.
    pub migrate_one-Ends :
        (w : W)
        → Ready w
        → Ends (migrate_one cat e cfg id) w (λ u w'. Migrated w w') (λ x w'. NotMigrated w x w')
    unfolding migrate_one
    migrate_one-Ends w ready =
        let D : Unit {0} → W → Type 0 = λ u w'. Migrated w w' in
        let F : Error → W → Type 0 = λ x w'. NotMigrated w x w' in
        let load = cat.load_table id in
        let L : Table → W → Type 0 = λ table w'.
          Ready w' × (pointer w' ≡ pointer w) × (pointer w ≡ some table.metadata_location) in
        let E : Error → W → Type 0 = λ x w'. Ready w' × (pointer w' ≡ pointer w) in
        let K : Table → W → Type 0 = λ table w'. L table w' × (load w ≡ (ok table, w')) in
        Ends-bind (context "load table: %w" [] load) _ w K D F
          (Ends-context "load table: %w" [] load w K F (
            Ends-weaken load w K K (λ x w'. E x w' × (load w ≡ (err x, w')))
              (λ x w'. F (wrapf "load table: %w" [] x) w') (Ends-known load w L E (c.loads w ready))
              (λ table w' q. q) (λ x w' ((r, q), _). inl (inl q))))
          (λ table w' ((r, kept, there), run).
            let told : Told w table = (ap (λ (x : Result Table × W). x.0) run, there) in
            Ends-if (has_prefix table.metadata_location cfg.target_prefix) _ _ w' D F
              (λ under. Ends-pure tt w' D F (table, told, inl (under, kept)))
              (λ elsewhere. loaded-Ends w table told elsewhere w' (r, kept ∙ there)))
