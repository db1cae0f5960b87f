-- ===== src/PositionDelete.antt =====
-- internal/rewrite/positiondelete.go: the Parquet bodies of V2 position-delete files.
pub mod Column
pub mod Walk
pub mod Writes
use bergrebase.Base.{
  Action, Bool, Bytes, List, Option, Result, String, [], bind, codes, context, err, errorf, false,
  get_elem?, has_prefix, if◌then◌else◌, int_eq, length, lift, list_eq, nat_eq, negsuc, none, number,
  ok, pos, pure, some, suc, text, true, wrap, zero, ℕ, ℤ, ◌+◌, ◌==◌, ◌>>=◌, ◌>>◌, ◌||◌, ◌∷◌,
}
use bergrebase.Prefix.{PrefixMapping, apply, matches}
use bergrebase.Storage.{Storage, put_and_verify}

-- An Arrow array: a string array with its nulls, or an array of another type, which the code only
-- passes on.
pub data Array : Type 0 where
  strings : List (Option Bytes) → Array
  other : Bytes → Array

-- The names of the columns, and all else that a schema holds.
pub record Schema : Type 0 where
  pub names : List Bytes
  pub rest : Bytes

-- An Arrow table: each column is a list of chunks.
pub record Table : Type 0 where
  pub schema : Schema
  pub columns : List (List Array)
  pub rows : ℕ

-- arrow-go: reading a Parquet file as a table, `array.Concatenate`, and writing a record batch. The
-- number that `new_file_writer` takes is the longest row group; the writer is uncompressed and
-- without dictionaries.
pub record Parquet : Type 1 where
  pub File : Type 0
  pub Reader : Type 0
  pub Writer : Type 0
  pub new_parquet_reader : Bytes → Result File
  pub new_file_reader : File → Result Reader
  pub read_table : Reader → Result Table
  pub concatenate : List Array → Result Array
  pub new_file_writer : Schema → ℕ → Result Writer
  pub write : Writer → List Array → ℕ → Result Writer
  pub close : Writer → Result Bytes

-- `PositionDeleteRewrite`
pub record PositionDeleteRewrite : Type 0 where
  pub new_uri : Bytes
  pub new_size : ℤ
  pub rewritten : Bool

-- `schema.FieldIndices(name)`, from index `i` on
unfoldable pub field_indices : Bytes → ℕ → List Bytes → List ℕ
field_indices name i [] = []
field_indices name i (n ∷ names) =
    let rest = field_indices name (suc i) names in if n == name then i ∷ rest else rest

-- the check for a single `file_path` column
unfoldable pub single_index : Bytes → List ℕ → Result ℕ
single_index uri [] =
    err (errorf "position-delete %s lacks file_path column (schema=%s)" (text uri ∷ []))
single_index uri (i ∷ []) = ok i
single_index uri (i ∷ j ∷ rest) = err (
    errorf "position-delete %s has %d file_path columns, expected 1"
      (text uri ∷ number (length (i ∷ j ∷ rest)) ∷ []))

module _ (m : PrefixMapping) (uri : Bytes) where
  -- one round of the loop of `rewriteFilePathColumn`: the value to append, and whether it changed
  unfoldable pub rewrite_row : ℕ → Option Bytes → Result (Option Bytes × Bool)
  rewrite_row i none = ok (none, false)
  rewrite_row i (some v) =
      if v == []
      then ok (some v, false)
      else if matches m v
      then ok (some (apply m v), true)
      else if has_prefix v m.target
      then ok (some v, false)
      else err (
          errorf
            "position-delete %s row %d: file_path %q matches neither source prefix %q nor target prefix %q"
            (text uri ∷ number i ∷ text v ∷ text m.source ∷ text m.target ∷ []))

  -- `rewriteFilePathColumn`, from row `i` on
  unfoldable pub rewrite_file_path_column :
      ℕ → List (Option Bytes) → Result (List (Option Bytes) × Bool)
  unfolding rewrite_row
  rewrite_file_path_column i [] = ok ([], false)
  rewrite_file_path_column i (x ∷ xs) = bind (rewrite_row i x) λ (y, changed).
      bind (rewrite_file_path_column (suc i) xs) λ (ys, later). ok (y ∷ ys, changed || later)

  -- the type switch on the `file_path` column
  unfoldable pub rewrite_strings : Array → Result (Array × Bool)
  unfolding rewrite_file_path_column
  rewrite_strings (strings xs) =
      bind (rewrite_file_path_column 0 xs) λ (ys, changed). ok (strings ys, changed)
  rewrite_strings (other x) =
      err (
        errorf "position-delete %s: file_path column is %T, expected *array.String" (text uri ∷ []))

module _ (pq : Parquet) where
  open pq use {
    File, Reader, Writer, new_parquet_reader, new_file_reader, read_table, concatenate,
    new_file_writer, write, close,
  }

  -- `openPositionDelete`
  unfoldable pub open_position_delete : Bytes → Bytes → Result (Table × ℕ)
  unfolding single_index field_indices
  open_position_delete raw uri =
      bind (wrap "open position-delete parquet %s: %w" (text uri ∷ []) (new_parquet_reader raw))
        λ pqf. bind (wrap "pqarrow reader %s: %w" (text uri ∷ []) (new_file_reader pqf)) λ rdr.
          bind (wrap "ReadTable %s: %w" (text uri ∷ []) (read_table rdr)) λ tbl.
            bind (single_index uri (field_indices (codes "file_path") 0 tbl.schema.names))
              λ i. ok (tbl, i)

  -- `concatChunks`
  unfoldable pub concat_chunks : List Array → Result Array
  concat_chunks [] = err (errorf "column has zero chunks" [])
  concat_chunks (c ∷ []) = ok c
  concat_chunks (c ∷ d ∷ rest) = concatenate (c ∷ d ∷ rest)

  -- `schema.Field(i).Name`
  abbrev pub column_name : Schema → ℕ → Bytes
  column_name schema i = elim (get_elem? schema.names i) [ none ↦ [] | some name ↦ name ]

  module _ (m : PrefixMapping) (uri : Bytes) (schema : Schema) (fp_idx : ℕ) where
    -- The loop over the columns in `RewritePositionDeleteFile`, from column `i` on.
    unfoldable pub rewrite_columns : ℕ → List (List Array) → Result (List Array × Bool)
    unfolding concat_chunks rewrite_strings
    rewrite_columns i [] = ok ([], false)
    rewrite_columns i (chunks ∷ rest) =
        bind (wrap "concat column %s: %w" (text (column_name schema i) ∷ []) (concat_chunks chunks))
          λ concat.
            bind (if i == fp_idx then rewrite_strings m uri concat else ok (concat, false))
              λ (col, changed).
                bind (rewrite_columns (suc i) rest)
                  λ (cols, later). ok (col ∷ cols, changed || later)

  -- `encodePositionDeleteParquet`
  unfoldable pub encode_position_delete_parquet : Schema → List Array → ℕ → Result Bytes
  encode_position_delete_parquet schema cols rows =
      bind (new_file_writer schema (rows + 1)) λ w. bind (write w cols rows) λ w'. close w'

  module _ {W : Type 0} (source : Storage W) (m : PrefixMapping) where
    -- What `RewritePositionDeleteFile` does with the columns that it rewrote.
    unfoldable pub store_columns :
        Storage W → Bytes → Bytes → Table → List Array × Bool → Action W PositionDeleteRewrite
    unfolding encode_position_delete_parquet
    store_columns target uri raw tbl (cols, mutated) =
        if mutated
        then (do
          rewritten_bytes ← lift (
              wrap "encode position-delete %s -> %s: %w" (text uri ∷ text (apply m uri) ∷ [])
                (encode_position_delete_parquet tbl.schema cols tbl.rows))
          context "position-delete %s: %w" (text (apply m uri) ∷ [])
              (put_and_verify target (apply m uri) rewritten_bytes)
          pure (record {
            new_uri = apply m uri;
            new_size = pos (length rewritten_bytes);
            rewritten = true;
          }))
        else pure (record { new_uri = apply m uri; new_size = pos (length raw); rewritten = false })

    -- `RewritePositionDeleteFile`
    unfoldable pub rewrite_position_delete_file : Storage W → Bytes → Action W PositionDeleteRewrite
    unfolding open_position_delete rewrite_columns store_columns
    rewrite_position_delete_file target uri =
        if matches m uri
        then (do
          raw ← context "read position-delete %s: %w" (text uri ∷ []) (source.get_object uri)
          (tbl, fp_idx) ← lift (open_position_delete raw uri)
          cols ← lift (rewrite_columns m uri tbl.schema fp_idx 0 tbl.columns)
          store_columns target uri raw tbl cols)
        else pure (record { new_uri = uri; new_size = negsuc 0; rewritten = false })

    -- the loop of `WalkPositionDeleteFile` over the chunks of the `file_path` column
    unfoldable pub walk_chunks : Bytes → List Array → Result (Unit {0})
    unfolding rewrite_strings
    walk_chunks uri [] = ok tt
    walk_chunks uri (c ∷ rest) = bind (rewrite_strings m uri c) λ _. walk_chunks uri rest

    -- `tbl.Column(i).Data().Chunks()`; the schema's indices are those of the columns
    abbrev pub chunks_at : Table → ℕ → List Array
    chunks_at tbl i = elim (get_elem? tbl.columns i) [ none ↦ [] | some chunks ↦ chunks ]

    -- `WalkPositionDeleteFile`
    unfoldable pub walk_position_delete_file : Bytes → Action W (Unit {0})
    unfolding open_position_delete walk_chunks
    walk_position_delete_file uri =
        if matches m uri
        then (do
          raw ← context "read position-delete %s: %w" (text uri ∷ []) (source.get_object uri)
          (tbl, fp_idx) ← lift (open_position_delete raw uri)
          lift (walk_chunks uri (chunks_at tbl fp_idx)))
        else pure tt
