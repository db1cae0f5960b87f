-- ===== src/Cli/Migrate.antt =====
-- cmd/bergrb/main.go, `migrateOne` and `validateAfterSwap`, and internal/rewrite/validate.go.
pub mod Outcome
use bergrebase.Base.{
  Action, Bool, Bytes, List, Option, Result, String, [], context, err, errorf, fail, false,
  has_prefix, if◌then◌else◌, int_eq, lift, list_eq, nat_eq, none, not, ok, pure, sentinel, some,
  text, true, validation_failed, wrap_both, ℤ, ◌==◌, ◌>>=◌, ◌>>◌, ◌∷◌,
}
use bergrebase.Storage.{Storage}
use bergrebase.Iceberg.{ManifestFile, Entry}
use bergrebase.Catalog.{Identifier, Table, Catalog}
use bergrebase.Metadata.{Snapshot, pick_validation_snapshot}
use bergrebase.Metadata.Rewrite.{Text, parse_metadata_json}
use bergrebase.Manifest.Rewrite.{Formats}
use bergrebase.Engine.{Engine, RewriteResult, rewrite_table}
use bergrebase.Cli.{Config}

-- `snapshotIDsEqual`
unfoldable pub snapshot_ids_equal : Option ℤ → Option ℤ → Bool
snapshot_ids_equal none none = true
snapshot_ids_equal none (some b) = false
snapshot_ids_equal (some a) none = false
snapshot_ids_equal (some a) (some b) = a == b

-- `fmt.Errorf("%w: …: %w", ErrValidationFailed, …, err)`
abbrev pub invalid {ℓ} : {A : Type ℓ} → String → Bytes → Result A → Result A
invalid format uri (ok a) = ok a
invalid format uri (err e) = err (wrap_both format (text uri ∷ []) (sentinel validation_failed) e)

unfoldable pub check {ℓ} : {W A : Type ℓ} → String → Bytes → Action W A → Action W A
check format uri m w = let (r, w') = m w in (invalid format uri r, w')

module _ (lib : Formats) (t : Text) {W : Type 0} (target : Storage W) where
  -- the HEAD on the first data file of the first manifest
  unfoldable pub head_first : List Entry → Action W (Unit {0})
  unfolding check
  head_first [] = pure tt
  head_first (e ∷ rest) = do
    check "%w: HEAD data file %s: %w" e.data_file.path (target.head_object e.data_file.path)
    pure tt

  unfoldable pub check_first_manifest : List ManifestFile → Action W (Unit {0})
  unfolding check head_first
  check_first_manifest [] = pure tt
  check_first_manifest (mf ∷ rest) = do
    raw ← check "%w: read manifest %s: %w" mf.path (target.get_object mf.path)
    entries ← lift (invalid "%w: decode manifest %s: %w" mf.path (lib.ice.read_manifest mf raw))
    head_first entries

  -- `if !ok || snap.ManifestList == "" { return nil }`
  unfoldable pub check_snapshot : Option Snapshot → Action W (Unit {0})
  unfolding check check_first_manifest
  check_snapshot none = pure tt
  check_snapshot (some snap) = if snap.manifest_list == [] then pure tt else (do
    raw ←
        check "%w: read manifest list %s: %w" snap.manifest_list
          (target.get_object snap.manifest_list)
    files ← lift (
        invalid "%w: decode manifest list %s: %w" snap.manifest_list
          (lib.ice.read_manifest_list raw))
    check_first_manifest files)

  -- `ValidateAfterSwap` of validate.go
  unfoldable pub validate_storage : Bytes → Action W (Unit {0})
  unfolding check check_snapshot
  validate_storage new_location = do
    raw ← check "%w: read %s: %w" new_location (target.get_object new_location)
    meta ← lift (invalid "%w: parse %s: %w" new_location (parse_metadata_json t raw))
    check_snapshot (pick_validation_snapshot meta)

  module _ (cat : Catalog W) (id : Identifier) where
    -- the comparisons of `validateAfterSwap`
    unfoldable pub check_pointer : Bytes → Option ℤ → Table → Action W (Unit {0})
    unfolding snapshot_ids_equal validate_storage
    check_pointer expected_loc expected_snap reloaded =
        if not (reloaded.metadata_location == expected_loc)
        then fail (
            errorf "catalog pointer drifted: have %q, expected %q"
              (text reloaded.metadata_location ∷ text expected_loc ∷ []))
        else if not (snapshot_ids_equal reloaded.current_snapshot_id expected_snap)
        then fail (errorf "current-snapshot-id drifted: have %v, expected %v" [])
        else validate_storage expected_loc

    -- `validateAfterSwap`
    unfoldable pub validate_after_swap : Bytes → Option ℤ → Action W (Unit {0})
    unfolding check_pointer
    validate_after_swap expected_loc expected_snap = do
      reloaded ← context "reload after swap: %w" [] (cat.load_table id)
      check_pointer expected_loc expected_snap reloaded

module _ {W : Type 0} (cat : Catalog W) (e : Engine W) (cfg : Config) where
  -- `migrateOne` after the rewrite
  unfoldable pub swap_and_validate : Identifier → Table → RewriteResult → Action W (Unit {0})
  unfolding validate_after_swap
  swap_and_validate id tbl res = if cfg.dry_run then pure tt else (do
    context "swap catalog pointer: %w" []
        (cat.swap_metadata_location id tbl.metadata_location res.new_metadata_location)
    if cfg.no_validate
        then pure tt
        else context "post-swap validation: %w" [] (
            validate_after_swap e.lib e.text_format e.target cat id res.new_metadata_location
              tbl.current_snapshot_id))

  -- `migrateOne`; `e` is the engine that `run` makes of the configuration
  unfoldable pub migrate_one : Identifier → Action W (Unit {0})
  unfolding swap_and_validate
  migrate_one id = do
    tbl ← context "load table: %w" [] (cat.load_table id)
    if has_prefix tbl.metadata_location cfg.target_prefix then pure tt else (do
      res ← context "rewrite metadata: %w" [] (rewrite_table e tbl.metadata_location)
      swap_and_validate id tbl res)
