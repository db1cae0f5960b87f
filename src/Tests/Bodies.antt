-- ===== src/Tests/Bodies.antt =====
-- Bodies of position-delete files.
use bergrebase.Base.{
  Bool, Bytes, List, Option, [], append-nil, codes, false, has_prefix, int_eq, list_beq, list_eq,
  nat_eq, none, ok, refl, some, true, ◌↔◌, ◌∷◌, ◌≡◌,
}
use mathlib.Core.List.{map, flatten}
use bergrebase.Prefix.{apply, matches}
use bergrebase.PositionDelete.{Array, strings, rewrite_file_path_column, walk_chunks}
use bergrebase.PositionDelete.Column.{
  AllKnown, moved, any_moves, rewrite_file_path_column-eq-ok, rewrite_file_path_column_twice,
}
use bergrebase.PositionDelete.Walk.{Concatenates, rewrite_chunks, walk_chunks-eq-ok}
use bergrebase.Tests.Memory.{memory}
use bergrebase.Tests.Paths.{old_to_new-NotNested}
use bergrebase.Tests.Toy.{old_to_new, toy_parquet, toy_concatenate}

abbrev uri : Bytes
uri = codes "s3://old/d"

abbrev rows : List (Option Bytes)
rows = some (codes "s3://old/a") ∷ none ∷ some (codes "s3://new/b") ∷ []

abbrev moved_rows : List (Option Bytes)
moved_rows = some (codes "s3://new/a") ∷ none ∷ some (codes "s3://new/b") ∷ []

rewrite_file_path_column-eq-ok_example :
    (rewrite_file_path_column old_to_new uri 0 rows ≡ ok (moved_rows, true)) ↔ (
      AllKnown old_to_new rows
      × (moved_rows ≡ map (moved old_to_new) rows)
      × (true ≡ any_moves old_to_new rows))
rewrite_file_path_column-eq-ok_example =
    rewrite_file_path_column-eq-ok old_to_new uri 0 rows moved_rows true

rewrite_file_path_column_twice_example :
    rewrite_file_path_column old_to_new uri 0 moved_rows ≡ ok (moved_rows, false)
unfolding rewrite_file_path_column list_beq matches has_prefix apply
rewrite_file_path_column_twice_example =
    rewrite_file_path_column_twice old_to_new uri old_to_new-NotNested 0 0 rows moved_rows true refl

toy_concatenate-strings :
    (xs : List (Option Bytes)) (xss : List (List (Option Bytes)))
    → toy_concatenate (map strings (xs ∷ xss)) ≡ ok (strings (flatten (xs ∷ xss)))
unfolding flatten
toy_concatenate-strings xs [] = rw append-nil
toy_concatenate-strings xs (ys ∷ xss) = rw (toy_concatenate-strings ys xss)

toy-Concatenates : Concatenates toy_parquet memory old_to_new uri
toy-Concatenates xs ys rest = toy_concatenate-strings xs (ys ∷ rest)

walk_chunks-eq-ok_example :
    (walk_chunks toy_parquet memory old_to_new uri (map strings (rows ∷ moved_rows ∷ [])) ≡ ok tt)
    ↔ ((r : Array × Bool) × (rewrite_chunks toy_parquet memory old_to_new uri
            (map strings (rows ∷ moved_rows ∷ []))
          ≡ ok r))
walk_chunks-eq-ok_example =
    walk_chunks-eq-ok toy_parquet memory old_to_new uri toy-Concatenates rows (moved_rows ∷ [])
