-- ===== src/Cli/DryRun.antt =====
-- What a run with --dry-run leaves alone.
use bergrebase.Base.{
  Action, Always, Bool, Bool-cases, Bytes, Ensures-bind, Ensures-context, Ensures-fail, Ensures-if,
  Ensures-lift, Ensures-pure, Keeps, Keeps-attempt, List, Option, Option-cases, Result, [], err,
  has_prefix, inl, inr, none, ok, some, suc, true, zero, ℕ, ◌++◌, ◌∷◌, ◌≡◌,
}
use bergrebase.Storage.{Storage, Reads}
use bergrebase.Catalog.{Namespace, Identifier, Catalog}
use bergrebase.Metadata.Rewrite.{Text}
use bergrebase.Manifest.Rewrite.{Formats}
use bergrebase.Engine.{Engine}
use bergrebase.Engine.Writes.{rewrite_table_dry}
use bergrebase.Cli.{Config, AwsCredentials}
use bergrebase.Cli.Namespaces.{
  NsBatch, key_of, is_visited, visit_queue, list_all_namespaces, batches_of, batches_if_listed,
  select_batches,
}
use bergrebase.Cli.Migrate.{swap_and_validate, migrate_one}
use bergrebase.Cli.Run.{
  Tally, or_stop, run_tables, run_batches, finish, run_listed, run, engine_of, no_tally,
}

-- Reading the catalog leaves `P` alone.
pub record CatalogReads {W : Type 0} (P : W → Type 0) (cat : Catalog W) : Type 0 where
  pub namespaces_keep : (ns : Namespace) → Keeps P (cat.list_namespaces ns)
  pub tables_keep : (ns : Namespace) → Keeps P (cat.list_tables ns)
  pub load_keeps : (id : Identifier) → Keeps P (cat.load_table id)

module _ {W : Type 0} {P : W → Type 0} (cat : Catalog W) (reads : CatalogReads P cat) where
  migrate_one-Keeps :
      (e : Engine W) (cfg : Config) (id : Identifier)
      → Reads P e.source
      → e.opts.dry_run ≡ true
      → cfg.dry_run ≡ true
      → Keeps P (migrate_one cat e cfg id)
  unfolding migrate_one swap_and_validate
  migrate_one-Keeps e cfg id r d h =
      Ensures-bind _ _ (Ensures-context _ _ _ (reads.load_keeps id)) λ tbl _.
        Ensures-if (has_prefix tbl.metadata_location cfg.target_prefix) _ _
          (λ _. Ensures-pure tt tt)
          (λ _.
            Ensures-bind _ _ (Ensures-context _ _ _ (rewrite_table_dry e r tbl.metadata_location d))
              λ res _. rw h (Ensures-pure tt tt))

  visit_queue-Keeps :
      (rounds : ℕ) (queue : List Namespace) (visited : List Bytes) (all : List Namespace)
      → Keeps P (visit_queue cat rounds queue visited all)
  unfolding visit_queue
  visit_queue-Keeps rounds [] visited all = Ensures-pure _ tt
  visit_queue-Keeps zero (ns ∷ queue) visited all = Ensures-pure _ tt
  visit_queue-Keeps (suc rounds) (ns ∷ queue) visited all =
      elim (Bool-cases (is_visited (key_of ns) visited)) [
        | inl e ↦ rw (e, visit_queue) (visit_queue-Keeps rounds queue visited all)
        | inr e ↦
            rw (e, visit_queue)
              (Ensures-bind _ _ (Ensures-context _ _ _ (reads.namespaces_keep ns))
                λ children _. visit_queue-Keeps rounds (queue ++ children) _ _)
      ]

  batches_of-Keeps : (all : List Namespace) → Keeps P (batches_of cat all)
  unfolding batches_of
  batches_of-Keeps [] = Ensures-pure _ tt
  batches_of-Keeps (ns ∷ rest) =
      Ensures-bind _ _ (Ensures-context _ _ _ (reads.tables_keep ns))
        λ _ _. Ensures-bind _ _ (batches_of-Keeps rest) λ _ _. Ensures-pure _ tt

  batches_if_listed-Keeps : (all : Option (List Namespace)) → Keeps P (batches_if_listed cat all)
  unfolding batches_if_listed
  batches_if_listed-Keeps none = Ensures-pure _ tt
  batches_if_listed-Keeps (some all) =
      Ensures-bind _ _ (batches_of-Keeps all) λ _ _. Ensures-pure _ tt

  pub select_batches-Keeps : (rounds : ℕ) (cfg : Config) → Keeps P (select_batches cat rounds cfg)
  unfolding select_batches list_all_namespaces
  select_batches-Keeps rounds cfg =
      Ensures-if cfg.all_namespaces _ _
        (λ _.
          Ensures-bind _ _
            (Ensures-bind _ _ (Ensures-context _ _ _ (reads.namespaces_keep []))
              λ roots _. visit_queue-Keeps rounds roots [] [])
            λ all _. batches_if_listed-Keeps all)
        (λ _.
          Ensures-if cfg.all_tables _ _
            (λ _. Ensures-bind _ _ (reads.tables_keep _) λ _ _. Ensures-pure _ tt)
            (λ _. Ensures-pure _ tt))

module _ {W : Type 0} {P : W → Type 0} (migrate : Identifier → Action W (Unit {0})) (kg : Bool)
    (keeps : (id : Identifier) → Keeps P (migrate id)) where
  or_stop-Keeps : (st : Tally) (r : Result (Unit {0})) → Keeps P (or_stop migrate kg st r)
  unfolding or_stop
  or_stop-Keeps st (ok u) = Ensures-pure _ tt
  or_stop-Keeps st (err e) = Ensures-if kg _ _ (λ _. Ensures-pure _ tt) (λ _. Ensures-fail e)

  run_tables-Keeps : (ids : List Identifier) (st : Tally) → Keeps P (run_tables migrate kg ids st)
  unfolding run_tables
  run_tables-Keeps [] st = Ensures-pure st tt
  run_tables-Keeps (id ∷ rest) st =
      Ensures-bind _ _ (Keeps-attempt (migrate id) (keeps id))
        λ r _. Ensures-bind _ _ (or_stop-Keeps st r) λ st' _. run_tables-Keeps rest st'

  run_batches-Keeps : (bs : List NsBatch) (st : Tally) → Keeps P (run_batches migrate kg bs st)
  unfolding run_batches
  run_batches-Keeps [] st = Ensures-pure st tt
  run_batches-Keeps (b ∷ rest) st =
      Ensures-bind _ _ (run_tables-Keeps b.tables st) λ st' _. run_batches-Keeps rest st'

  finish-Keeps : (st : Tally) → Keeps P (finish migrate kg st)
  unfolding finish
  finish-Keeps st = elim (Option-cases st.first_err) [
    | inl e ↦ rw (e, finish) (Ensures-pure tt tt)
    | inr (x, e) ↦ rw (e, finish) (Ensures-fail x)
  ]

  pub run_listed-Keeps : (bs : Option (List NsBatch)) → Keeps P (run_listed migrate kg bs)
  unfolding run_listed
  run_listed-Keeps none = Ensures-pure none tt
  run_listed-Keeps (some bs) =
      Ensures-bind _ _ (run_batches-Keeps bs no_tally)
        λ st _. Ensures-bind _ _ (finish-Keeps st) λ _ _. Ensures-pure _ tt

module _ {W : Type 0} {P : W → Type 0} (lib : Formats) (t : Text)
    (source_of target_of : AwsCredentials → Storage W) (cat : Catalog W) where
  -- With --dry-run, a run, successful or not, changes only what reads of the source storage and of
  -- the catalog change: nothing is written and no pointer is swapped.
  pub run_dry :
      CatalogReads P cat
      → ((creds : AwsCredentials) → Reads P (source_of creds))
      → (getenv : Bytes → Bytes) (cfg : Config) (rounds : ℕ) → cfg.dry_run ≡ true
      → Keeps P (run lib t source_of target_of getenv cat cfg rounds)
  unfolding run
  run_dry reads sources getenv cfg rounds h =
      Ensures-bind {Q = Always} _ _ (Ensures-lift _ (λ _ _. tt)) λ source_creds _.
        Ensures-bind {Q = Always} _ _ (Ensures-lift _ (λ _ _. tt)) λ target_creds _.
          Ensures-bind _ _ (Ensures-context _ _ _ (select_batches-Keeps cat reads rounds cfg))
            λ batches _.
              run_listed-Keeps _ cfg.keep_going
                (λ id.
                  migrate_one-Keeps cat reads
                    (engine_of lib t source_of target_of cfg source_creds target_creds) cfg id
                    (sources source_creds) h h)
                batches
