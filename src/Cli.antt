-- ===== src/Cli.antt =====
-- cmd/bergrb/main.go: the configuration, and the checks on it. Logging is not modelled.
pub mod Validate
pub mod Namespaces
pub mod Migrate
pub mod Run
pub mod DryRun
pub mod Confined
pub mod Clients
pub mod Main
use bergrebase.Base.{
  Bool, Bytes, List, Result, String, [], bind, codes, err, errorf, false, has_prefix, has_suffix,
  if◌then◌else◌, int_eq, is_negative, join, list_eq, nat_eq, not, ok, text, true, ℤ, ◌&&◌, ◌++◌,
  ◌==◌, ◌||◌, ◌∷◌,
}

-- `config`
pub record Config : Type 0 where
  pub catalog_uri : Bytes
  pub catalog_warehouse : Bytes
  pub catalog_token_env : Bytes
  pub source_prefix : Bytes
  pub source_endpoint : Bytes
  pub source_region : Bytes
  pub source_path_style : Bool
  pub target_prefix : Bytes
  pub target_endpoint : Bytes
  pub target_region : Bytes
  pub target_path_style : Bool
  pub namespace : Bytes
  pub table : Bytes
  pub all_tables : Bool
  pub all_namespaces : Bool
  pub dry_run : Bool
  pub current_only : Bool
  pub keep_going : Bool
  pub no_validate : Bool
  pub max_object_size : ℤ

-- `if test { flags = append(flags, name) }`
abbrev pub flag_if : Bool → String → List Bytes
flag_if test name = if test then codes name ∷ [] else []

-- the flags that are required and were not given
unfoldable pub missing : Config → List Bytes
missing c =
    flag_if (c.catalog_uri == []) "--catalog-uri"
    ++ (flag_if (c.catalog_warehouse == []) "--catalog-warehouse"
        ++ (flag_if (c.source_prefix == []) "--source-prefix"
            ++ (flag_if (c.target_prefix == []) "--target-prefix"
                ++ flag_if (not c.all_namespaces && c.namespace == []) "--namespace")))

-- the flags that --all-namespaces excludes and that were given
unfoldable pub conflicts : Config → List Bytes
conflicts c =
    flag_if (not (c.namespace == [])) "--namespace"
    ++ (flag_if (not (c.table == [])) "--table" ++ flag_if c.all_tables "--all-tables")

abbrev pub same_bool : Bool → Bool → Bool
same_bool true b = b
same_bool false b = not b

-- the branch on --all-namespaces
unfoldable pub check_scope : Config → Result (Unit {0})
unfolding conflicts join
check_scope c =
    if c.all_namespaces
    then (if conflicts c == []
        then ok tt
        else err (
            errorf "--all-namespaces is mutually exclusive with: %s"
              (text (join (conflicts c) (codes ", ")) ∷ [])))
    else (if same_bool (not (c.table == [])) c.all_tables
        then err (errorf "exactly one of --table or --all-tables is required" [])
        else ok tt)

-- the checks on the two prefixes
unfoldable pub check_prefixes : Config → Result (Unit {0})
unfolding has_suffix
check_prefixes c =
    if c.source_prefix == c.target_prefix
    then err (errorf "--source-prefix and --target-prefix must differ" [])
    else if not (has_suffix c.source_prefix (codes "/"))
    then err (errorf "--source-prefix %q must end with '/'" (text c.source_prefix ∷ []))
    else if not (has_suffix c.target_prefix (codes "/"))
    then err (errorf "--target-prefix %q must end with '/'" (text c.target_prefix ∷ []))
    else if has_prefix c.target_prefix c.source_prefix || has_prefix c.source_prefix c.target_prefix
    then err
        (errorf "--source-prefix and --target-prefix must not be nested one under the other" [])
    else ok tt

unfoldable pub check_size : Config → Result (Unit {0})
check_size c =
    if is_negative c.max_object_size
    then err (errorf "--max-object-size must be >= 0" [])
    else ok tt

-- `c.validate()`
unfoldable pub validate : Config → Result (Unit {0})
unfolding missing check_scope check_prefixes check_size join
validate c =
    if missing c == []
    then (bind (check_scope c) λ _. bind (check_prefixes c) λ _. check_size c)
    else err (errorf "missing required flags: %s" (text (join (missing c) (codes ", ")) ∷ []))

-- `awsCredentials`
pub record AwsCredentials : Type 0 where
  pub access_key_id : Bytes
  pub secret_access_key : Bytes
  pub session_token : Bytes

-- `sideCredentials`; `getenv` is the environment, in which an unset variable is empty
unfoldable pub side_credentials : (Bytes → Bytes) → Bytes → Result AwsCredentials
side_credentials getenv side =
    let key = getenv (side ++ codes "_AWS_ACCESS_KEY_ID") in
    let secret = getenv (side ++ codes "_AWS_SECRET_ACCESS_KEY") in
    let token = getenv (side ++ codes "_AWS_SESSION_TOKEN") in
    if same_bool (key == []) (secret == [])
    then ok (record { access_key_id = key; secret_access_key = secret; session_token = token })
    else err (
        errorf
          "%s_AWS_ACCESS_KEY_ID and %s_AWS_SECRET_ACCESS_KEY must be set together (exactly one is set — typo in the variable name?)"
          (text side ∷ text side ∷ []))
