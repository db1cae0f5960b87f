-- ===== src/PositionDelete/Column.antt =====
-- The `file_path` column: which rows are accepted, what becomes of them, and a second pass.
use mathlib.Core.List.{map}
use mathlib.Core.Path.{ap₂}
use bergrebase.Base.{
  All, Bool, Bytes, List, Option, [], arith, bind-eq-ok, false, has_prefix, if◌then◌else◌, int_eq,
  list_eq, nat_eq, none, not, ok, refl, some, suc, sym, true, ℕ, ◌&&◌, ◌==◌, ◌||◌, ◌↔◌, ◌∙◌, ◌∷◌,
  ◌≡◌,
}
use bergrebase.Prefix.{PrefixMapping, apply, matches}
use bergrebase.Prefix.Laws.{NotNested, apply_outside, matches-apply, has_prefix-apply}
use bergrebase.PositionDelete.{rewrite_row, rewrite_file_path_column}

-- A row whose path lies under the source prefix.
abbrev pub moves : PrefixMapping → Option Bytes → Bool
moves m none = false
moves m (some v) = not (v == []) && matches m v

-- A null, an empty path, or a path under one of the two prefixes.
abbrev pub known : PrefixMapping → Option Bytes → Bool
known m none = true
known m (some v) = v == [] || (matches m v || has_prefix v m.target)

-- The row with its path under the target prefix.
abbrev pub moved : PrefixMapping → Option Bytes → Option Bytes
moved m none = none
moved m (some v) = if v == [] then some v else some (apply m v)

abbrev pub any_moves : PrefixMapping → List (Option Bytes) → Bool
any_moves m [] = false
any_moves m (x ∷ xs) = moves m x || any_moves m xs

abbrev pub AllKnown : PrefixMapping → List (Option Bytes) → Type 0
AllKnown m = All (λ x. known m x ≡ true)

module _ (m : PrefixMapping) (uri : Bytes) where
  rewrite_row-known :
      (i : ℕ) (x : Option Bytes)
      → known m x ≡ true
      → rewrite_row m uri i x ≡ ok (moved m x, moves m x)
  unfolding rewrite_row
  rewrite_row-known i none k = refl
  rewrite_row-known i (some v) k = ground (arith, apply_outside m v)

  rewrite_row-eq-ok :
      (i : ℕ) (x y : Option Bytes) (c : Bool) → rewrite_row m uri i x ≡ ok (y, c) → known m x ≡ true
  unfolding rewrite_row
  rewrite_row-eq-ok i none y c h = refl
  rewrite_row-eq-ok i (some v) y c h = ground arith

  column-known :
      (i : ℕ) (xs : List (Option Bytes))
      → AllKnown m xs
      → rewrite_file_path_column m uri i xs ≡ ok (map (moved m) xs, any_moves m xs)
  unfolding rewrite_file_path_column
  column-known i [] k = refl
  column-known i (x ∷ xs) (k, ks) = rw (rewrite_row-known i x k) (rw (column-known (suc i) xs ks))

  column_foreign :
      (i : ℕ) (xs : List (Option Bytes)) (r : List (Option Bytes) × Bool)
      → rewrite_file_path_column m uri i xs ≡ ok r
      → AllKnown m xs
  unfolding rewrite_file_path_column
  column_foreign i [] r h = tt
  column_foreign i (x ∷ xs) r h =
      let ((y, c), row_ok, rest) = bind-eq-ok (rewrite_row m uri i x) _ h in
      let (r', rest_ok, _) = bind-eq-ok (rewrite_file_path_column m uri (suc i) xs) _ rest in
      (rewrite_row-eq-ok i x y c row_ok, column_foreign (suc i) xs r' rest_ok)

  -- The column is accepted exactly if every row is null, empty, or under one of the two prefixes.
  -- Then each row under the source prefix is moved and every other row kept, and a change is
  -- reported exactly if some row moved.
  pub rewrite_file_path_column-eq-ok :
      (i : ℕ) (xs ys : List (Option Bytes)) (changed : Bool)
      → (rewrite_file_path_column m uri i xs ≡ ok (ys, changed))
        ↔ (AllKnown m xs × (ys ≡ map (moved m) xs) × (changed ≡ any_moves m xs))
  rewrite_file_path_column-eq-ok i xs ys changed = (
    λ h.
        let known_rows = column_foreign i xs (ys, changed) h in
        let e : ok (ys, changed) ≡ ok (map (moved m) xs, any_moves m xs) =
          sym h ∙ column-known i xs known_rows in
        (known_rows, cc, cc),
    λ (k, e, c). rw (e, c) (column-known i xs k),
  )

  module _ (n : NotNested m) where
    moved-known : (x : Option Bytes) → known m x ≡ true → known m (moved m x) ≡ true
    moved-known none k = refl
    moved-known (some v) k = ground (arith, apply_outside m v, has_prefix-apply m v)

    moves-moved : (x : Option Bytes) → moves m (moved m x) ≡ false
    moves-moved none = refl
    moves-moved (some v) = ground (arith, matches-apply m n v)

    moved-moved : (x : Option Bytes) → moved m (moved m x) ≡ moved m x
    moved-moved none = refl
    moved-moved (some v) = ground (arith, apply_outside m (apply m v), matches-apply m n v)

    column_settled :
        (i : ℕ) (xs : List (Option Bytes))
        → AllKnown m xs
        → AllKnown m (map (moved m) xs)
          × (map (moved m) (map (moved m) xs) ≡ map (moved m) xs)
          × (any_moves m (map (moved m) xs) ≡ false)
    column_settled i [] k = (tt, refl, refl)
    column_settled i (x ∷ xs) (k, ks) =
        let (known_rest, same, quiet) = column_settled i xs ks in
        (
          (moved-known x k, known_rest),
          ap₂ ◌∷◌ (moved-moved x) same,
          ground (arith, moves-moved x, quiet),
        )

    -- With prefixes that are not nested, a column that was rewritten is accepted again and comes
    -- back as it is, with no change reported.
    pub rewrite_file_path_column_twice :
        (i j : ℕ) (xs ys : List (Option Bytes)) (changed : Bool)
        → rewrite_file_path_column m uri i xs ≡ ok (ys, changed)
        → rewrite_file_path_column m uri j ys ≡ ok (ys, false)
    rewrite_file_path_column_twice i j xs ys changed h =
        let (k, e, _) = (rewrite_file_path_column-eq-ok i xs ys changed).0 h in
        let (k', same, quiet) = column_settled i xs k in
        rw e ((rewrite_file_path_column-eq-ok j _ _ false).1 (k', sym same, sym quiet))
