-- ===== src/Rest/Requests.antt =====
-- internal/catalog/rest/rest.go: `init` and the requests of the client.
use bergrebase.Base.{
  Action, Arg, Bool, Bytes, List, Option, Result, String, [], codes, context, err, errorf,
  if◌then◌else◌, int_eq, join, lift, list_eq, nat_eq, none, not, ok, pure, some, text, wrap, ◌++◌,
  ◌==◌, ◌>>=◌, ◌∷◌,
}
use bergrebase.Catalog.{Namespace, Identifier, Table}
use bergrebase.Rest.{
  get_method, delete_method, post_method, Context, caller, ConfigResponse, LoadResponse, Transport,
  Config, Client, call, do_request, trim_slashes,
}

-- `m["prefix"]`
unfoldable pub prefix_of : List (Bytes × Bytes) → Bytes
prefix_of [] = []
prefix_of ((k, v) ∷ rest) = if k == codes "prefix" then v else prefix_of rest

-- the switch at the end of `init`
unfoldable pub choose_prefix : ConfigResponse → Bytes
unfolding prefix_of
choose_prefix conf =
    if not (prefix_of conf.overrides == [])
    then prefix_of conf.overrides
    else if not (prefix_of conf.defaults == [])
    then prefix_of conf.defaults
    else conf.prefix

abbrev pub separator : Bytes
separator = 31 ∷ []

-- a query parameter that is set only if it has a value
abbrev pub optional_query : String → Bytes → List (Bytes × Bytes)
optional_query key value = if value == [] then [] else (codes key, value) ∷ []

module _ {W : Type 0} (t : Transport W) where
  open t use {
    Url, parse_url, join_path, set_query, path_escape, path_join, decode_config, decode_namespaces,
    decode_tables, decode_load,
  }

  -- `fetchConfig`
  unfoldable pub fetch_config : Config → Url → Action W ConfigResponse
  fetch_config cfg base = context "rest: fetch config: %w" [] (
      do_request t cfg caller get_method
        (set_query (join_path base (codes "v1" ∷ codes "config" ∷ []))
          (optional_query "warehouse" cfg.warehouse))
        none (record { defaults = []; overrides = []; prefix = [] }) decode_config)

  -- the function that `init` hands to `once.Do`
  unfoldable pub start : Config → Action W (Url × Bytes)
  unfolding trim_slashes fetch_config choose_prefix
  start cfg = do
    base ←
        lift (wrap "rest: parse uri %q: %w" (text cfg.uri ∷ []) (parse_url (trim_slashes cfg.uri)))
    conf ← fetch_config cfg base
    pure (base, choose_prefix conf)

  unfoldable pub remember :
      Client t → Result (Url × Bytes) × W → Result (Url × Bytes) × (Client t × W)
  remember c (r, w) = (r, (record c { ready = some r }, w))

  unfoldable pub init_from : Option (Result (Url × Bytes)) → Action (Client t × W) (Url × Bytes)
  unfolding start remember
  init_from (some r) (c, w) = (r, (c, w))
  init_from none (c, w) = remember c (start c.cfg w)

  -- `init`: the base URL and the routing prefix, or the error of the first call
  unfoldable pub init : Action (Client t × W) (Url × Bytes)
  unfolding init_from
  init (c, w) = init_from c.ready (c, w)

  -- `v1Path`
  unfoldable pub v1_path : Url × Bytes → List Bytes → Url
  v1_path (base, prefix) segments =
      join_path base (codes "v1" ∷ (if prefix == [] then [] else prefix ∷ []) ++ segments)

  -- `encodeNamespace`
  unfoldable pub encode_namespace : Namespace → Bytes
  unfolding join
  encode_namespace ns = path_escape (join ns separator)

  -- `qualifiedName`
  abbrev pub qualified_name : Identifier → Arg
  qualified_name id = text (path_join (id.namespace ++ id.name ∷ []))

  unfoldable pub config_of : Action (Client t × W) Config
  config_of (c, w) = (ok c.cfg, (c, w))

  -- the URL of `ListNamespaces`
  unfoldable pub namespaces_url : Url × Bytes → Namespace → Url
  unfolding v1_path join
  namespaces_url at [] = v1_path at (codes "namespaces" ∷ [])
  namespaces_url at (p ∷ ps) =
      set_query (v1_path at (codes "namespaces" ∷ []))
        ((codes "parent", join (p ∷ ps) separator) ∷ [])

  -- `ListNamespaces`
  unfoldable pub list_namespaces : Namespace → Action (Client t × W) (List Namespace)
  unfolding init namespaces_url do_request call config_of
  list_namespaces parent = do
    at ← init
    cfg ← config_of
    context "rest: list namespaces under %q: %w" (text (join parent (codes ".")) ∷ []) (
        call t
          (do_request t cfg caller get_method (namespaces_url at parent) none [] decode_namespaces))

  -- `ListTables`
  unfoldable pub list_tables : Namespace → Action (Client t × W) (List Identifier)
  unfolding init v1_path encode_namespace do_request call config_of
  list_tables ns = do
    at ← init
    cfg ← config_of
    context "rest: list tables in %s: %w" (text (join ns (codes ".")) ∷ []) (
        call t (
          do_request t cfg caller get_method
            (v1_path at (codes "namespaces" ∷ encode_namespace ns ∷ codes "tables" ∷ [])) none []
            decode_tables))

  -- the URL of a table
  unfoldable pub table_url : Url × Bytes → Identifier → Url
  unfolding v1_path encode_namespace
  table_url at id = v1_path at (
      codes "namespaces"
      ∷ encode_namespace id.namespace
      ∷ codes "tables"
      ∷ path_escape id.name
      ∷ [])

  -- what `LoadTable` makes of the response
  unfoldable pub loaded : Identifier → LoadResponse → Result Table
  loaded id resp =
      if resp.metadata_location == []
      then err
          (errorf "rest: load %s: server returned empty metadata-location" (qualified_name id ∷ []))
      else ok (record {
        identifier = id;
        metadata_location = resp.metadata_location;
        current_snapshot_id = resp.current_snapshot_id;
      })

  -- `LoadTable`
  unfoldable pub load_table : Identifier → Action (Client t × W) Table
  unfolding init table_url do_request call config_of loaded
  load_table id = do
    at ← init
    cfg ← config_of
    resp ← context "rest: load %s: %w" (qualified_name id ∷ []) (
        call t (
          do_request t cfg caller get_method (table_url at id) none
            (record { metadata_location = []; current_snapshot_id = none }) decode_load))
    lift (loaded id resp)

  -- `dropTable`
  unfoldable pub drop_table : Config → Url × Bytes → Context → Identifier → Action W (Unit {0})
  unfolding table_url do_request
  drop_table cfg at ctx id =
      do_request t cfg ctx delete_method
        (set_query (table_url at id) ((codes "purgeRequested", codes "false") ∷ [])) none tt
        (λ _. ok tt)

  -- `registerTable`
  unfoldable pub register_table :
      Config → Url × Bytes → Context → Identifier → Bytes → Bool → Action W (Unit {0})
  unfolding v1_path encode_namespace do_request
  register_table cfg at ctx id metadata_loc overwrite =
      let u =
        v1_path at (codes "namespaces" ∷ encode_namespace id.namespace ∷ codes "register" ∷ []) in
      do_request t cfg ctx post_method
        (if overwrite then set_query u ((codes "overwrite", codes "true") ∷ []) else u)
        (some (record { name = id.name; metadata_location = metadata_loc })) tt (λ _. ok tt)
