-- ===== src/Tests/Paths.antt =====
-- Paths, URIs, sizes and numbers.
use Prim.Native.Nat.{◌*◌}
use bergrebase.Base.{
  Lacks, [], arith, codes, false, has_prefix, none, number, ok, pos, refl, ◌++◌, ◌+◌, ◌↔◌, ◌∷◌, ◌≡◌,
  ◌≢◌, ◌≤◌,
}
use bergrebase.Prefix.{apply, matches}
use bergrebase.Prefix.Laws.{NotNested, inverse, apply-apply, apply-inverse, matches-apply}
use bergrebase.Storage.{put_and_verify}
use bergrebase.Storage.Put.{Verified, put_and_verify-eq-ok}
use bergrebase.S3.{Body, scheme, parse_s3_uri, read_limit, read_body}
use bergrebase.S3.Uri.{parse_s3_uri-eq-ok, read_body-eq-ok, read_body_max, max_int64}
use bergrebase.Json.{as_any, number}
use bergrebase.Json.Float.{as_any_merges}
use bergrebase.Tests.Memory.{Objects, memory}
use bergrebase.Tests.Toy.{old_to_new}

pub old_to_new-NotNested : NotNested old_to_new
unfolding has_prefix
old_to_new-NotNested = record { target_outside = refl; source_outside = refl }

matches-apply_example : matches old_to_new (apply old_to_new (codes "s3://old/a")) ≡ false
matches-apply_example = matches-apply old_to_new old_to_new-NotNested (codes "s3://old/a")

apply-apply_example :
    apply old_to_new (apply old_to_new (codes "s3://old/a")) ≡ apply old_to_new (codes "s3://old/a")
apply-apply_example = apply-apply old_to_new old_to_new-NotNested (codes "s3://old/a")

apply-inverse_example :
    apply (inverse old_to_new) (apply old_to_new (codes "s3://old/a")) ≡ codes "s3://old/a"
unfolding matches has_prefix
apply-inverse_example = apply-inverse old_to_new (codes "s3://old/a") refl

parse_s3_uri-eq-ok_example : (parse_s3_uri (codes "s3://b/k") ≡ ok (codes "b", codes "k")) ↔ (
    (codes "s3://b/k" ≡ scheme ++ (codes "b" ++ 47 ∷ codes "k"))
    × Lacks 47 (codes "b")
    × (codes "b" ≢ [])
    × (codes "k" ≢ []))
parse_s3_uri-eq-ok_example = parse_s3_uri-eq-ok (codes "s3://b/k") (codes "b") (codes "k")

abbrev short_body : Body
short_body = record { content = codes "abc"; failure = none }

read_body-eq-ok_example :
    (read_body (pos 3) (codes "s3://b/k") short_body ≡ ok (codes "abc"))
    ↔ ((codes "abc" ≡ codes "abc") × (short_body.failure ≡ none) × (3 ≤ read_limit (pos 3)))
unfolding read_limit
read_body-eq-ok_example =
    read_body-eq-ok (pos 3) (codes "s3://b/k") short_body (omega arith) (codes "abc")

read_body_max_example : read_body (pos max_int64) (codes "s3://b/k") short_body ≡ ok []
read_body_max_example = read_body_max (codes "s3://b/k") short_body

abbrev before : Objects
before = []

abbrev after : Objects
after = (codes "s3://new/k", codes "abc") ∷ []

put_and_verify-eq-ok_example :
    (put_and_verify memory (codes "s3://new/k") (codes "abc") before ≡ (ok tt, after))
    ↔ Verified memory (codes "s3://new/k") (codes "abc") before after
put_and_verify-eq-ok_example =
    put_and_verify-eq-ok memory (codes "s3://new/k") (codes "abc") before after

as_any_merges_example :
    as_any (number (pos (4 * 2251799813685248 + 1))) ≡ as_any (number (pos (4 * 2251799813685248)))
as_any_merges_example = as_any_merges 2251799813685248 (omega arith) (omega arith)
