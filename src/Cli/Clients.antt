-- ===== src/Cli/Clients.antt =====
-- cmd/bergrb/main.go, `run`: the clients that a run makes, and the world that holds them.
use bergrebase.Base.{Action, Bytes, Option, Result, none}
use bergrebase.Storage.{Storage}
use bergrebase.Catalog.{Catalog}
use bergrebase.S3
use bergrebase.S3.{Sdk, get_object, put_object, head_object}
use bergrebase.Rest
use bergrebase.Rest.{Transport}
use bergrebase.Rest.Implementation.{catalog_of}
use bergrebase.Cli.{Config, AwsCredentials}

-- `rest.Config{…}`
unfoldable pub rest_config : (Bytes → Bytes) → Config → Rest.Config
rest_config getenv cfg = record {
  uri = cfg.catalog_uri;
  warehouse = cfg.catalog_warehouse;
  token = getenv cfg.catalog_token_env;
}

-- the `storage.Config{…}` of the source
unfoldable pub source_config : Config → AwsCredentials → S3.Config
source_config cfg creds = record {
  region = cfg.source_region;
  endpoint = cfg.source_endpoint;
  path_style = cfg.source_path_style;
  access_key_id = creds.access_key_id;
  secret_access_key = creds.secret_access_key;
  session_token = creds.session_token;
  max_object_size = cfg.max_object_size;
}

-- the `storage.Config{…}` of the target
unfoldable pub target_config : Config → AwsCredentials → S3.Config
target_config cfg creds = record {
  region = cfg.target_region;
  endpoint = cfg.target_endpoint;
  path_style = cfg.target_path_style;
  access_key_id = creds.access_key_id;
  secret_access_key = creds.secret_access_key;
  session_token = creds.session_token;
  max_object_size = cfg.max_object_size;
}

module _ {W : Type 0} (sdk : Sdk W) (t : Transport W) where
  -- What the three clients hold, and what lies beyond them. Of a storage client, whose configuration
  -- does not change, it is what `once.Do` has left.
  pub record Clients : Type 0 where
    pub source : Option (Result sdk.Handle)
    pub target : Option (Result sdk.Handle)
    pub catalog : Rest.Client t
    pub beyond : W

  unfoldable pub by_source :
      S3.Config → {A : Type 0} → Action (S3.Client sdk × W) A → Action Clients A
  by_source cfg m v =
      let (r, (c, w)) = m (record { cfg = cfg; built = v.source }, v.beyond) in
      (r, record v { source = c.built; beyond = w })

  unfoldable pub by_target :
      S3.Config → {A : Type 0} → Action (S3.Client sdk × W) A → Action Clients A
  by_target cfg m v =
      let (r, (c, w)) = m (record { cfg = cfg; built = v.target }, v.beyond) in
      (r, record v { target = c.built; beyond = w })

  unfoldable pub by_catalog : {A : Type 0} → Action (Rest.Client t × W) A → Action Clients A
  by_catalog m v =
      let (r, (c, w)) = m (v.catalog, v.beyond) in (r, record v { catalog = c; beyond = w })

  -- `storage.New(…)` for the source
  abbrev pub source_storage : Config → AwsCredentials → Storage Clients
  source_storage cfg creds = record {
    get_object = λ uri. by_source (source_config cfg creds) (get_object sdk uri);
    put_object = λ uri body. by_source (source_config cfg creds) (put_object sdk uri body);
    head_object = λ uri. by_source (source_config cfg creds) (head_object sdk uri);
  }

  -- `storage.New(…)` for the target
  abbrev pub target_storage : Config → AwsCredentials → Storage Clients
  target_storage cfg creds = record {
    get_object = λ uri. by_target (target_config cfg creds) (get_object sdk uri);
    put_object = λ uri body. by_target (target_config cfg creds) (put_object sdk uri body);
    head_object = λ uri. by_target (target_config cfg creds) (head_object sdk uri);
  }

  -- `rest.New(…)`
  abbrev pub rest_catalog : Catalog Clients
  rest_catalog = record {
    list_namespaces = λ ns. by_catalog ((catalog_of t).list_namespaces ns);
    list_tables = λ ns. by_catalog ((catalog_of t).list_tables ns);
    load_table = λ id. by_catalog ((catalog_of t).load_table id);
    swap_metadata_location =
        λ id old new. by_catalog ((catalog_of t).swap_metadata_location id old new);
  }

  -- the clients as they are made
  unfoldable pub new_clients : (Bytes → Bytes) → Config → W → Clients
  unfolding rest_config Rest.new
  new_clients getenv cfg w = record {
    source = none;
    target = none;
    catalog = Rest.new t (rest_config getenv cfg);
    beyond = w;
  }
