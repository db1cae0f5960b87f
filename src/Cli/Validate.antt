-- ===== src/Cli/Validate.antt =====
-- What a configuration that `config.validate` accepts is like.
use bergrebase.Base.{
  Bool, Bytes, List, String, [], append-nil, arith, codes, false, has_prefix, has_prefix-append,
  has_suffix, if◌then◌else◌, int_eq, is_negative, list_beq, list_beq_iff, list_eq, nat_eq, not, ok,
  refl, true, ◌&&◌, ◌++◌, ◌==◌, ◌||◌, ◌↔◌, ◌≡◌,
}
use bergrebase.Prefix.{PrefixMapping}
use bergrebase.Prefix.Laws.{NotNested}
use bergrebase.Cli.{
  Config, missing, conflicts, flag_if, same_bool, check_scope, check_prefixes, check_size, validate,
}

-- `rewrite.PrefixMapping{Source: cfg.sourcePrefix, Target: cfg.targetPrefix}`
abbrev pub mapping_of : Config → PrefixMapping
mapping_of c = record { source = c.source_prefix; target = c.target_prefix }

-- Exactly one of a table, all tables of a namespace, and all namespaces is asked for, and a
-- namespace exactly where the scope lies in one.
abbrev pub one_scope : Config → Bool
one_scope c =
    if c.all_namespaces
    then c.namespace == [] && (c.table == [] && not c.all_tables)
    else not (c.namespace == []) && same_bool (c.table == []) c.all_tables

abbrev pub required_given : Config → Bool
required_given c =
    not (c.catalog_uri == [])
    && (not (c.catalog_warehouse == [])
        && (not (c.source_prefix == []) && not (c.target_prefix == [])))

-- Two different prefixes, each ending in a slash, neither under the other.
abbrev pub prefixes_apart : Config → Bool
prefixes_apart c =
    has_suffix c.source_prefix (codes "/")
    && (has_suffix c.target_prefix (codes "/")
        && (not (has_prefix c.target_prefix c.source_prefix)
            && not (has_prefix c.source_prefix c.target_prefix)))

abbrev pub acceptable : Config → Bool
acceptable c =
    required_given c && (one_scope c && (prefixes_apart c && not (is_negative c.max_object_size)))

flag_if_then :
    (test : Bool) (name : String) (ys : List Bytes)
    → ((flag_if test name ++ ys) == []) ≡ (not test && (ys == []))
unfolding list_beq
flag_if_then true name ys = refl
flag_if_then false name ys = refl

flag_if-empty : (test : Bool) (name : String) → (flag_if test name == []) ≡ not test
unfolding list_beq
flag_if-empty true name = refl
flag_if-empty false name = refl

missing-empty :
    (c : Config)
    → (missing c == []) ≡ (required_given c && (c.all_namespaces || not (c.namespace == [])))
unfolding missing
missing-empty c =
    rw (flag_if_then, flag_if_then, flag_if_then, flag_if_then, flag_if-empty) (ground arith)

conflicts-empty :
    (c : Config) → (conflicts c == []) ≡ (c.namespace == [] && (c.table == [] && not c.all_tables))
unfolding conflicts
conflicts-empty c = rw (flag_if_then, flag_if_then, flag_if-empty) (ground arith)

check_scope-eq-ok :
    (c : Config)
    → (c.all_namespaces || not (c.namespace == [])) ≡ true
    → (check_scope c ≡ ok tt) ↔ (one_scope c ≡ true)
unfolding check_scope
check_scope-eq-ok c h = rw (conflicts-empty c) (ground arith)

has_prefix_refl : (s : Bytes) → has_prefix s s ≡ true
has_prefix_refl s = ground (arith, has_prefix-append s [], append-nil s)

check_prefixes-eq-ok : (c : Config) → (check_prefixes c ≡ ok tt) ↔ (prefixes_apart c ≡ true)
unfolding check_prefixes
check_prefixes-eq-ok c =
    ground (arith, list_beq_iff c.source_prefix c.target_prefix, has_prefix_refl c.source_prefix)

check_size-eq-ok : (c : Config) → (check_size c ≡ ok tt) ↔ (is_negative c.max_object_size ≡ false)
unfolding check_size
check_size-eq-ok c = ground arith

-- `validate` accepts a configuration exactly if what is required is given, exactly one scope is
-- asked for, the prefixes end in slashes and neither is under the other, and the cap on objects is
-- not negative.
pub validate-eq-ok : (c : Config) → (validate c ≡ ok tt) ↔ (acceptable c ≡ true)
unfolding validate
validate-eq-ok c =
    rw (missing-empty c)
      (ground (arith, check_scope-eq-ok c, check_prefixes-eq-ok c, check_size-eq-ok c))

-- Under an accepted configuration, neither prefix lies under the other.
pub validate-NotNested : (c : Config) → validate c ≡ ok tt → NotNested (mapping_of c)
validate-NotNested c h =
    let accepted = (validate-eq-ok c).0 h in
    record { target_outside = ground arith; source_outside = ground arith }
