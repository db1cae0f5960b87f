-- ===== src/Cli/Main/Reach.antt =====
-- How far the program reaches.
use bergrebase.Base.{Action, Bytes, Keeps, Lacks, Result, bind, err, ok, ℕ, ◌≡◌}
use bergrebase.Storage.{Reads, WritesUnder}
use bergrebase.Metadata.Rewrite.{Text}
use bergrebase.Manifest.Rewrite.{Formats}
use bergrebase.S3
use bergrebase.S3.{Sdk}
use bergrebase.S3.Implementation.{uri_of, Spares, Spared, storage_of-WritesUnder}
use bergrebase.Rest
use bergrebase.Rest.{Context, Request, Transport}
use bergrebase.Rest.Sends.{
  Net, list_namespaces-Net, list_tables-Net, load_table-Net, swap_metadata_location-Net,
}
use bergrebase.Cli.{Config, AwsCredentials, validate}
use bergrebase.Cli.Clients.{
  Clients, by_source, by_target, by_catalog, source_storage, target_storage, rest_catalog,
  new_clients,
}
use bergrebase.Cli.Confined.{run_confined}
use bergrebase.Cli.DryRun.{CatalogReads}
use bergrebase.Cli.Main.{
  Flags, config_of_flags, parse_flags, run_with_clients, main_with, real_main,
}

module _ {W : Type 0} (sdk : Sdk W) (t : Transport W) (P : W → Type 0) (bucket dir : Bytes)
    (l : Lacks 47 bucket) (s : Spares sdk P bucket dir)
    (sends : (ctx : Context) (req : Request t.Url) → Keeps P (t.send ctx req)) where
  -- `P`, with the clients beside it
  abbrev pub Beyond : Clients sdk t → Type 0
  Beyond v = P v.beyond

  by_source-Beyond :
      (cfg : S3.Config) {A : Type 0} (m : Action (S3.Client sdk × W) A)
      → Keeps (Spared sdk P) m
      → Keeps Beyond (by_source sdk t cfg m)
  unfolding by_source
  by_source-Beyond cfg m k = record {
    keeps = λ v p. k.keeps (record { cfg = cfg; built = v.source }, v.beyond) p;
    returns = λ v a p e. tt;
  }

  by_target-Beyond :
      (cfg : S3.Config) {A : Type 0} (m : Action (S3.Client sdk × W) A)
      → Keeps (Spared sdk P) m
      → Keeps Beyond (by_target sdk t cfg m)
  unfolding by_target
  by_target-Beyond cfg m k = record {
    keeps = λ v p. k.keeps (record { cfg = cfg; built = v.target }, v.beyond) p;
    returns = λ v a p e. tt;
  }

  by_catalog-Beyond :
      {A : Type 0} (m : Action (Rest.Client t × W) A)
      → Keeps (Net t P sends) m
      → Keeps Beyond (by_catalog sdk t m)
  unfolding by_catalog
  by_catalog-Beyond m k = record {
    keeps = λ v p. k.keeps (v.catalog, v.beyond) p;
    returns = λ v a p e. tt;
  }

  source-Reads :
      (cfg : Config) (creds : AwsCredentials) → Reads Beyond (source_storage sdk t cfg creds)
  source-Reads cfg creds =
      let reads = (storage_of-WritesUnder sdk P bucket dir l s).0 in
      record {
        get_keeps = λ uri. by_source-Beyond _ _ (reads.get_keeps uri);
        head_keeps = λ uri. by_source-Beyond _ _ (reads.head_keeps uri);
      }

  target-Reads :
      (cfg : Config) (creds : AwsCredentials) → Reads Beyond (target_storage sdk t cfg creds)
  target-Reads cfg creds =
      let reads = (storage_of-WritesUnder sdk P bucket dir l s).0 in
      record {
        get_keeps = λ uri. by_target-Beyond _ _ (reads.get_keeps uri);
        head_keeps = λ uri. by_target-Beyond _ _ (reads.head_keeps uri);
      }

  target-WritesUnder :
      (cfg : Config) (creds : AwsCredentials)
      → WritesUnder Beyond (uri_of bucket dir) (target_storage sdk t cfg creds)
  target-WritesUnder cfg creds uri body under =
      by_target-Beyond _ _ ((storage_of-WritesUnder sdk P bucket dir l s).1 uri body under)

  catalog-CatalogReads : CatalogReads Beyond (rest_catalog sdk t)
  catalog-CatalogReads = record {
    namespaces_keep = λ ns. by_catalog-Beyond _ (list_namespaces-Net t P sends ns);
    tables_keep = λ ns. by_catalog-Beyond _ (list_tables-Net t P sends ns);
    load_keeps = λ id. by_catalog-Beyond _ (load_table-Net t P sends id);
  }

  module _ (lib : Formats) (text_format : Text) (getenv : Bytes → Bytes) (rounds : ℕ) where
    run_with_clients-Keeps :
        (cfg : Config) (w : W)
        → cfg.target_prefix ≡ uri_of bucket dir
        → P w
        → P (run_with_clients lib text_format sdk t getenv cfg rounds w).1
    unfolding run_with_clients new_clients
    run_with_clients-Keeps cfg w e p =
        (run_confined lib text_format (source_storage sdk t cfg) (target_storage sdk t cfg)
            (rest_catalog sdk t) catalog-CatalogReads
            (λ id old new. by_catalog-Beyond _ (swap_metadata_location-Net t P sends id old new))
            (source-Reads cfg) (target-Reads cfg) cfg (λ creds. rw e (target-WritesUnder cfg creds))
            getenv rounds).keeps
          (new_clients sdk t getenv cfg w) p

    main_with-Keeps :
        (f : Flags) (r : Result (Unit {0})) (w : W)
        → (config_of_flags f).target_prefix ≡ uri_of bucket dir
        → P w
        → P (main_with lib text_format sdk t getenv rounds (bind r λ _. ok (config_of_flags f)) w).1
    unfolding main_with
    main_with-Keeps f (ok u) w e p = run_with_clients-Keeps (config_of_flags f) w e p
    main_with-Keeps f (err x) w e p = p

    -- With a target prefix that is "s3://", a bucket whose name has no slash, a slash and a directory:
    -- the program, whatever its exit code, keeps every property of the world outside of it that
    -- making S3 clients, GETs, HEADs and requests to the catalog keep, and PUTs to that bucket at
    -- keys that begin with that directory.
    pub real_main-Keeps :
        (f : Flags) (w : W)
        → (config_of_flags f).target_prefix ≡ uri_of bucket dir
        → P w
        → P (real_main lib text_format sdk t getenv rounds f w).1
    unfolding real_main parse_flags
    real_main-Keeps f w e p = main_with-Keeps f (validate (config_of_flags f)) w e p
