-- ===== src/Tests/Programs.antt =====
-- The whole program, on a catalog with one table.
use bergrebase.Base.{
  Bytes, List, Option, [], bind, codes, false, if◌then◌else◌, int_eq, list_beq, list_eq, nat_eq,
  none, ok, pos, refl, some, true, ℕ, ◌++◌, ◌==◌, ◌>>=◌, ◌↔◌, ◌∷◌, ◌≡◌,
}
use bergrebase.Storage.{put_and_verify}
use bergrebase.S3.{Sdk, get_object, put_object, head_object}
use bergrebase.Cli.Main.{Flags, real_main, config_of_flags}
use bergrebase.Cli.Main.Exit.{real_main_zero, real_main_two, Rebased}
use bergrebase.Cli.Validate.{acceptable}
use bergrebase.Metadata.Rewrite.{Text}
use bergrebase.Prefix.{matches, apply}
use bergrebase.Json.{get_field, set_field, as_any_fields}
use bergrebase.Metadata.{select_snapshots, pick_validation_snapshot}
use bergrebase.Metadata.Rewrite.{parse_metadata_json, rewrite_metadata_json}
use bergrebase.Metadata.Edit.{apply_metadata_json_mapping}
use bergrebase.Manifest.ManifestList.{walk_manifest_list}
use bergrebase.Engine.{rewrite_table}
use bergrebase.Rest
use bergrebase.Rest.Requests.{load_table, drop_table, register_table}
use bergrebase.Rest.Swap.{swap_metadata_location}
use bergrebase.Cli.{validate}
use bergrebase.Tests.Catalogs.{transport, answer}
use bergrebase.Tests.Memory.{find}
use bergrebase.Tests.Toy.{described, toy_formats, toy_text}

unfoldable pub given : List (Bytes × Bytes) → Bytes → Bytes → Bytes
given [] name default = default
given ((n, v) ∷ rest) name default = if n == name then v else given rest name default

-- all that is required, with the prefix of the target
abbrev pub arguments_to : Bytes → List (Bytes × Bytes)
arguments_to target_prefix =
    (codes "catalog-uri", codes "http://c")
    ∷ (codes "catalog-warehouse", codes "wh")
    ∷ (codes "source-prefix", codes "s3://old/")
    ∷ (codes "target-prefix", target_prefix)
    ∷ (codes "namespace", codes "db")
    ∷ (codes "table", codes "t")
    ∷ []

abbrev arguments : List (Bytes × Bytes)
arguments = arguments_to (codes "s3://new/")

abbrev pub flags_of : List (Bytes × Bytes) → Flags
flags_of args = record {
  string_var = given args;
  bool_var = λ name default. default;
  int64_var = λ name default. default;
}

abbrev objects : List (Bytes × Bytes)
objects = (codes "old/m", codes "{ }") ∷ (codes "new/m", codes "{}") ∷ []

-- Two buckets with one document each, which forget what is written.
abbrev sdk : Sdk (Option Bytes)
sdk = record {
  Handle = Unit {0};
  connect = λ _ w. (ok tt, w);
  get = λ _ bucket key w. (
    bind (find (bucket ++ 47 ∷ key) objects)
        λ content. ok (record { content = content; failure = none }),
    w,
  );
  put = λ _ bucket key body w. (ok tt, w);
  head = λ _ bucket key w. (ok (some (pos 2)), w);
}

-- A table that has no snapshot yet.
abbrev empty_table : Text
empty_table = record toy_text {
  decode = λ _. ok (record described { current_snapshot_id = none; snapshots = [] });
}

abbrev program : Flags → Option Bytes → Option ℕ × Option Bytes
program f p = real_main toy_formats empty_table sdk transport (λ _. []) 5 f p

moves :
    program (flags_of arguments) (some (codes "s3://old/m")) ≡ (some 0, some (codes "s3://new/m"))
unfolding real_main given validate list_beq ◌>>=◌ load_table Rest.new answer rewrite_table matches
    find parse_metadata_json select_snapshots walk_manifest_list rewrite_metadata_json
    apply_metadata_json_mapping get_field as_any_fields set_field apply put_and_verify
    swap_metadata_location register_table drop_table pick_validation_snapshot get_object put_object
    head_object
moves = refl

real_main_zero_example :
    (acceptable (config_of_flags (flags_of arguments)) ≡ true)
    × Rebased toy_formats empty_table sdk transport
        (λ _. [])
        5
        (config_of_flags (flags_of arguments))
        (some (codes "s3://old/m"))
        (some (codes "s3://new/m"))
real_main_zero_example =
    real_main_zero toy_formats empty_table sdk transport (λ _. []) 5 (flags_of arguments)
      (some (codes "s3://old/m")) (some (codes "s3://new/m")) moves

real_main_two_example :
    (program (flags_of []) (some (codes "s3://old/m")) ≡ (some 2, some (codes "s3://old/m"))) ↔ (
      (acceptable (config_of_flags (flags_of [])) ≡ false)
      × (some (codes "s3://old/m") ≡ some (codes "s3://old/m")))
real_main_two_example =
    real_main_two toy_formats empty_table sdk transport (λ _. []) 5 (flags_of [])
      (some (codes "s3://old/m")) (some (codes "s3://old/m"))
