-- ===== src/Cli/Confined.antt =====
-- What a run leaves alone in the storage.
use bergrebase.Base.{
  Action, Always, Bool-cases, Bytes, Ensures-bind, Ensures-context, Ensures-fail, Ensures-if,
  Ensures-lift, Ensures-pure, Keeps, Keeps-of_Ensures, List, Option, String, [], has_prefix, inl,
  inr, int_eq, list_eq, nat_eq, none, not, some, ℕ, ℤ, ◌==◌, ◌∷◌,
}
use bergrebase.Storage.{Storage, Reads, WritesUnder}
use bergrebase.Iceberg.{ManifestFile, Entry}
use bergrebase.Catalog.{Identifier, Table, Catalog}
use bergrebase.Metadata.{Snapshot}
use bergrebase.Metadata.Rewrite.{Text}
use bergrebase.Manifest.Rewrite.{Formats}
use bergrebase.Engine.{Engine, RewriteResult, rewrite_table}
use bergrebase.Engine.Writes.{rewrite_table_confined, rewrite_table_dry}
use bergrebase.Cli.{Config, AwsCredentials}
use bergrebase.Cli.DryRun.{CatalogReads, select_batches-Keeps, run_listed-Keeps}
use bergrebase.Cli.Migrate.{
  check, head_first, check_first_manifest, check_snapshot, validate_storage, check_pointer,
  validate_after_swap, swap_and_validate, migrate_one, snapshot_ids_equal,
}
use bergrebase.Cli.Run.{run, engine_of}

check-Keeps :
    {W A : Type 0} {P : W → Type 0} (format : String) (uri : Bytes) (m : Action W A)
    → Keeps P m
    → Keeps P (check format uri m)
unfolding check
check-Keeps format uri m h = record { keeps = h.keeps; returns = λ w a p e. tt }

module _ (lib : Formats) (t : Text) {W : Type 0} {P : W → Type 0} (target : Storage W)
    (reads : Reads P target) where
  head_first-Keeps : (es : List Entry) → Keeps P (head_first lib t target es)
  unfolding head_first
  head_first-Keeps [] = Ensures-pure tt tt
  head_first-Keeps (e ∷ rest) =
      Ensures-bind _ _ (check-Keeps _ _ _ (reads.head_keeps e.data_file.path))
        λ _ _. Ensures-pure tt tt

  check_first_manifest-Keeps :
      (files : List ManifestFile) → Keeps P (check_first_manifest lib t target files)
  unfolding check_first_manifest
  check_first_manifest-Keeps [] = Ensures-pure tt tt
  check_first_manifest-Keeps (mf ∷ rest) =
      Ensures-bind _ _ (check-Keeps _ _ _ (reads.get_keeps mf.path)) λ _ _.
        Ensures-bind {Q = Always} _ _ (Ensures-lift _ (λ _ _. tt)) λ es _. head_first-Keeps es

  check_snapshot-Keeps : (s : Option Snapshot) → Keeps P (check_snapshot lib t target s)
  unfolding check_snapshot
  check_snapshot-Keeps none = Ensures-pure tt tt
  check_snapshot-Keeps (some snap) =
      Ensures-if (snap.manifest_list == []) _ _ (λ _. Ensures-pure tt tt)
        (λ _. Ensures-bind _ _ (check-Keeps _ _ _ (reads.get_keeps snap.manifest_list)) λ _ _.
          Ensures-bind {Q = Always} _ _ (Ensures-lift _ (λ _ _. tt))
            λ files _. check_first_manifest-Keeps files)

  validate_storage-Keeps : (uri : Bytes) → Keeps P (validate_storage lib t target uri)
  unfolding validate_storage
  validate_storage-Keeps uri = Ensures-bind _ _ (check-Keeps _ _ _ (reads.get_keeps uri)) λ _ _.
      Ensures-bind {Q = Always} _ _ (Ensures-lift _ (λ _ _. tt)) λ _ _. check_snapshot-Keeps _

  module _ (cat : Catalog W) (id : Identifier) (load_keeps : Keeps P (cat.load_table id)) where
    check_pointer-Keeps :
        (loc : Bytes) (snap : Option ℤ) (table : Table)
        → Keeps P (check_pointer lib t target cat id loc snap table)
    unfolding check_pointer
    check_pointer-Keeps loc snap table =
        Ensures-if (not (table.metadata_location == loc)) _ _ (λ _. Ensures-fail _)
          (λ _.
            Ensures-if (not (snapshot_ids_equal table.current_snapshot_id snap)) _ _
              (λ _. Ensures-fail _) (λ _. validate_storage-Keeps loc))

    pub validate_after_swap-Keeps :
        (loc : Bytes) (snap : Option ℤ) → Keeps P (validate_after_swap lib t target cat id loc snap)
    unfolding validate_after_swap
    validate_after_swap-Keeps loc snap =
        Ensures-bind _ _ (Ensures-context _ _ _ load_keeps)
          λ table _. check_pointer-Keeps loc snap table

module _ {W : Type 0} {P : W → Type 0} (cat : Catalog W) (cat_reads : CatalogReads P cat)
    (swaps : (id : Identifier) (old new : Bytes) → Keeps P (cat.swap_metadata_location id old new))
    (e : Engine W) (cfg : Config) (source_reads : Reads P e.source)
    (target_reads : Reads P e.target) where
  swap_and_validate-Keeps :
      (id : Identifier) (table : Table) (res : RewriteResult)
      → Keeps P (swap_and_validate cat e cfg id table res)
  unfolding swap_and_validate
  swap_and_validate-Keeps id table res =
      Ensures-if cfg.dry_run _ _ (λ _. Ensures-pure tt tt)
        (λ _. Ensures-bind _ _ (Ensures-context _ _ _ (swaps id _ _)) λ _ _.
          Ensures-if cfg.no_validate _ _ (λ _. Ensures-pure tt tt)
            (λ _. Ensures-context _ _ _ (
              validate_after_swap-Keeps e.lib e.text_format e.target target_reads cat id
                (cat_reads.load_keeps id) _ _)))

  rewrite-Keeps :
      WritesUnder P e.opts.mapping.target e.target → (uri : Bytes) → Keeps P (rewrite_table e uri)
  rewrite-Keeps writes uri = elim (Bool-cases e.opts.dry_run) [
    | inl dry ↦ rewrite_table_dry e source_reads uri dry
    | inr live ↦
        Keeps-of_Ensures _ (rewrite_table_confined e source_reads target_reads writes uri live)
  ]

  migrate_one-Keeps :
      WritesUnder P e.opts.mapping.target e.target
      → (id : Identifier) → Keeps P (migrate_one cat e cfg id)
  unfolding migrate_one
  migrate_one-Keeps writes id =
      Ensures-bind _ _ (Ensures-context _ _ _ (cat_reads.load_keeps id)) λ table _.
        Ensures-if (has_prefix table.metadata_location cfg.target_prefix) _ _
          (λ _. Ensures-pure tt tt)
          (λ _.
            Ensures-bind _ _ (Ensures-context _ _ _ (rewrite-Keeps writes _))
              λ res _. swap_and_validate-Keeps id table res)

module _ {W : Type 0} {P : W → Type 0} (lib : Formats) (t : Text)
    (source_of target_of : AwsCredentials → Storage W) (cat : Catalog W) where
  -- A run, successful or not, changes only what reads of both storages, calls of the catalog, and
  -- PUTs to the target storage at URIs under the target prefix change.
  pub run_confined :
      CatalogReads P cat
      → ((id : Identifier) (old new : Bytes) → Keeps P (cat.swap_metadata_location id old new))
      → ((creds : AwsCredentials) → Reads P (source_of creds))
      → ((creds : AwsCredentials) → Reads P (target_of creds))
      → (cfg : Config)
      → ((creds : AwsCredentials) → WritesUnder P cfg.target_prefix (target_of creds))
      → (getenv : Bytes → Bytes) (rounds : ℕ)
      → Keeps P (run lib t source_of target_of getenv cat cfg rounds)
  unfolding run
  run_confined reads swaps sources targets cfg writes getenv rounds =
      Ensures-bind {Q = Always} _ _ (Ensures-lift _ (λ _ _. tt)) λ source_creds _.
        Ensures-bind {Q = Always} _ _ (Ensures-lift _ (λ _ _. tt)) λ target_creds _.
          Ensures-bind _ _ (Ensures-context _ _ _ (select_batches-Keeps cat reads rounds cfg))
            λ batches _.
              run_listed-Keeps _ cfg.keep_going
                (migrate_one-Keeps cat reads swaps
                  (engine_of lib t source_of target_of cfg source_creds target_creds) cfg
                  (sources source_creds) (targets target_creds) (writes target_creds))
                batches
