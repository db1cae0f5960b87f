-- ===== src/Cli/Main.antt =====
-- cmd/bergrb/main.go: `parseFlags`, `run` with its clients, and `realMain`. The logger, the
-- signals and the warning about plain http are not modelled.
pub mod Exit
pub mod Reach
use bergrebase.Base.{
  Action, Bool, Bytes, Option, Result, [], bind, codes, err, false, none, ok, pos, some, ℕ, ℤ,
}
use bergrebase.Metadata.Rewrite.{Text}
use bergrebase.Manifest.Rewrite.{Formats}
use bergrebase.S3.{Sdk}
use bergrebase.Rest.{Transport}
use bergrebase.Cli.{Config, validate}
use bergrebase.Cli.Clients.{
  source_storage, target_storage, rest_catalog, new_clients, by_source, by_target, by_catalog,
  source_config, target_config,
}
use bergrebase.Cli.Run.{Tally, run}

-- The package `flag` after `flag.Parse()`: the value of a flag, by its name and its default. Where
-- parsing fails, the package ends the program by itself.
pub record Flags : Type 0 where
  pub string_var : Bytes → Bytes → Bytes
  pub bool_var : Bytes → Bool → Bool
  pub int64_var : Bytes → ℤ → ℤ

-- the variables that `parseFlags` declares
unfoldable pub config_of_flags : Flags → Config
config_of_flags f = record {
  catalog_uri = f.string_var (codes "catalog-uri") [];
  catalog_warehouse = f.string_var (codes "catalog-warehouse") [];
  catalog_token_env = f.string_var (codes "catalog-token-from-env") (codes "LAKEKEEPER_TOKEN");
  source_prefix = f.string_var (codes "source-prefix") [];
  source_endpoint = f.string_var (codes "source-endpoint") [];
  source_region = f.string_var (codes "source-region") [];
  source_path_style = f.bool_var (codes "source-path-style") false;
  target_prefix = f.string_var (codes "target-prefix") [];
  target_endpoint = f.string_var (codes "target-endpoint") [];
  target_region = f.string_var (codes "target-region") [];
  target_path_style = f.bool_var (codes "target-path-style") false;
  namespace = f.string_var (codes "namespace") [];
  table = f.string_var (codes "table") [];
  all_tables = f.bool_var (codes "all-tables") false;
  all_namespaces = f.bool_var (codes "all-namespaces") false;
  dry_run = f.bool_var (codes "dry-run") false;
  current_only = f.bool_var (codes "current-snapshot-only") false;
  keep_going = f.bool_var (codes "keep-going") false;
  no_validate = f.bool_var (codes "no-validate") false;
  max_object_size = f.int64_var (codes "max-object-size") (pos 0);
}

-- `parseFlags`
unfoldable pub parse_flags : Flags → Result Config
unfolding config_of_flags
parse_flags f = bind (validate (config_of_flags f)) λ _. ok (config_of_flags f)

module _ {W : Type 0} (lib : Formats) (text_format : Text) (sdk : Sdk W) (t : Transport W) where
  -- `run` with the clients that it makes
  unfoldable pub run_with_clients : (Bytes → Bytes) → Config → ℕ → Action W (Option Tally)
  unfolding run new_clients by_source by_target by_catalog source_config target_config
  run_with_clients getenv cfg rounds w =
      let (r, v) =
        run lib text_format (source_storage sdk t cfg) (target_storage sdk t cfg) getenv
          (rest_catalog sdk t) cfg rounds (new_clients sdk t getenv cfg w) in
      (r, v.beyond)

  -- the exit code for what `run` returns; `none` says that the rounds ran out
  abbrev pub exit_code : Result (Option Tally) → Option ℕ
  exit_code (ok none) = none
  exit_code (ok (some st)) = some 0
  exit_code (err e) = some 1

  -- `realMain`, once `parseFlags` is done
  unfoldable pub main_with : (Bytes → Bytes) → ℕ → Result Config → W → Option ℕ × W
  unfolding run_with_clients
  main_with getenv rounds (err e) w = (some 2, w)
  main_with getenv rounds (ok cfg) w =
      let (r, w') = run_with_clients getenv cfg rounds w in (exit_code r, w')

  -- `realMain`
  unfoldable pub real_main : (Bytes → Bytes) → ℕ → Flags → W → Option ℕ × W
  unfolding main_with parse_flags
  real_main getenv rounds f w = main_with getenv rounds (parse_flags f) w
