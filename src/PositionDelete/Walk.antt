-- ===== src/PositionDelete/Walk.antt =====
-- The dry run of a delete file against the live rewrite.
use mathlib.Core.List.{map, flatten}
use bergrebase.Base.{
  All, All-append, Bool, Bytes, List, Option, Result, [], append-nil, bind, bind-eq-ok, ok, refl,
  sym, ◌++◌, ◌↔◌, ◌∙◌, ◌∷◌, ◌≡◌,
}
use bergrebase.Prefix.{PrefixMapping}
use bergrebase.Storage.{Storage}
use bergrebase.PositionDelete.{
  Array, strings, Parquet, rewrite_file_path_column, rewrite_strings, concat_chunks, walk_chunks,
}
use bergrebase.PositionDelete.Column.{AllKnown, moved, any_moves, rewrite_file_path_column-eq-ok}

AllKnown-flatten :
    (m : PrefixMapping) (xss : List (List (Option Bytes)))
    → All (AllKnown m) xss
    → AllKnown m (flatten xss)
unfolding flatten
AllKnown-flatten m [] k = tt
AllKnown-flatten m (xs ∷ xss) (k, ks) = All-append _ xs (flatten xss) k (AllKnown-flatten m xss ks)

All-append_split :
    (m : PrefixMapping) (xs ys : List (Option Bytes))
    → AllKnown m (xs ++ ys)
    → AllKnown m xs × AllKnown m ys
All-append_split m [] ys k = (tt, k)
All-append_split m (x ∷ xs) ys (k, ks) =
    let (first, later) = All-append_split m xs ys ks in ((k, first), later)

AllKnown-chunks :
    (m : PrefixMapping) (xss : List (List (Option Bytes)))
    → AllKnown m (flatten xss)
    → All (AllKnown m) xss
unfolding flatten
AllKnown-chunks m [] k = tt
AllKnown-chunks m (xs ∷ xss) k =
    let (first, later) = All-append_split m xs (flatten xss) k in
    (first, AllKnown-chunks m xss later)

module _ (m : PrefixMapping) (uri : Bytes) where
  rewrite_strings-known :
      (xs : List (Option Bytes))
      → AllKnown m xs
      → rewrite_strings m uri (strings xs) ≡ ok (strings (map (moved m) xs), any_moves m xs)
  unfolding rewrite_strings
  rewrite_strings-known xs k =
      rw ((rewrite_file_path_column-eq-ok m uri 0 xs _ _).1 (k, refl, refl))

  rewrite_strings_accepted :
      (xs : List (Option Bytes)) (r : Array × Bool)
      → rewrite_strings m uri (strings xs) ≡ ok r
      → AllKnown m xs
  unfolding rewrite_strings
  rewrite_strings_accepted xs r h =
      let ((ys, c), e, _) = bind-eq-ok (rewrite_file_path_column m uri 0 xs) _ h in
      ((rewrite_file_path_column-eq-ok m uri 0 xs ys c).0 e).0

module _ (pq : Parquet) {W : Type 0} (source : Storage W) (m : PrefixMapping) (uri : Bytes) where
  walk_chunks-known :
      (xss : List (List (Option Bytes)))
      → All (AllKnown m) xss
      → walk_chunks pq source m uri (map strings xss) ≡ ok tt
  unfolding walk_chunks
  walk_chunks-known [] k = refl
  walk_chunks-known (xs ∷ xss) (k, ks) =
      rw (rewrite_strings-known m uri xs k) (walk_chunks-known xss ks)

  walk_chunks_accepted :
      (xss : List (List (Option Bytes)))
      → walk_chunks pq source m uri (map strings xss) ≡ ok tt
      → All (AllKnown m) xss
  unfolding walk_chunks
  walk_chunks_accepted [] h = tt
  walk_chunks_accepted (xs ∷ xss) h =
      let (r, e, rest) = bind-eq-ok (rewrite_strings m uri (strings xs)) _ h in
      (rewrite_strings_accepted m uri xs r e, walk_chunks_accepted xss rest)

  -- What arrow-go's concatenation of string arrays does.
  abbrev pub Concatenates : Type 0
  Concatenates =
      (xs ys : List (Option Bytes)) (rest : List (List (Option Bytes)))
      → pq.concatenate (map strings (xs ∷ ys ∷ rest)) ≡ ok (strings (flatten (xs ∷ ys ∷ rest)))

  -- The live rewrite of the chunks of the `file_path` column.
  abbrev pub rewrite_chunks : List Array → Result (Array × Bool)
  rewrite_chunks chunks = bind (concat_chunks pq chunks) (rewrite_strings m uri)

  rewrite_chunks-flatten :
      Concatenates
      → (xs : List (Option Bytes)) (xss : List (List (Option Bytes)))
      → rewrite_chunks (map strings (xs ∷ xss))
        ≡ rewrite_strings m uri (strings (flatten (xs ∷ xss)))
  unfolding concat_chunks rewrite_strings flatten
  rewrite_chunks-flatten c xs [] = rw append-nil
  rewrite_chunks-flatten c xs (ys ∷ rest) = rw (c xs ys rest)

  -- Where concatenation joins string arrays and the column has a chunk, all chunks being strings,
  -- the dry run of the column succeeds exactly if the live rewrite of the column does.
  pub walk_chunks-eq-ok :
      Concatenates
      → (xs : List (Option Bytes)) (xss : List (List (Option Bytes)))
      → (walk_chunks pq source m uri (map strings (xs ∷ xss)) ≡ ok tt)
        ↔ ((r : Array × Bool) × (rewrite_chunks (map strings (xs ∷ xss)) ≡ ok r))
  walk_chunks-eq-ok c xs xss = (
    λ h.
        let k = AllKnown-flatten m (xs ∷ xss) (walk_chunks_accepted (xs ∷ xss) h) in
        (
          (strings (map (moved m) (flatten (xs ∷ xss))), any_moves m (flatten (xs ∷ xss))),
          rewrite_chunks-flatten c xs xss ∙ rewrite_strings-known m uri _ k,
        ),
    λ (r, h).
        let k =
          rewrite_strings_accepted m uri (flatten (xs ∷ xss)) r
            (sym (rewrite_chunks-flatten c xs xss) ∙ h) in
        walk_chunks-known (xs ∷ xss) (AllKnown-chunks m (xs ∷ xss) k),
  )
