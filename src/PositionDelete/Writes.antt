-- ===== src/PositionDelete/Writes.antt =====
-- Where the rewrite of a delete file writes.
use bergrebase.Base.{
  Always, Bool, Bytes, Ensures-bind, Ensures-context, Ensures-if, Ensures-lift, Ensures-pure, Keeps,
  List, true, ◌≡◌,
}
use bergrebase.Prefix.{PrefixMapping, apply, matches}
use bergrebase.Prefix.Laws.{has_prefix-apply}
use bergrebase.Storage.{Storage, Reads, WritesUnder, put_and_verify}
use bergrebase.Storage.Put.{put_and_verify-Keeps}
use bergrebase.PositionDelete.{
  Table, Array, Parquet, store_columns, rewrite_position_delete_file, walk_position_delete_file,
}

module _ (pq : Parquet) {W : Type 0} {P : W → Type 0} (source : Storage W) (m : PrefixMapping) where
  -- The dry run only reads.
  pub walk_position_delete_file-Keeps :
      Reads P source → (uri : Bytes) → Keeps P (walk_position_delete_file pq source m uri)
  unfolding walk_position_delete_file
  walk_position_delete_file-Keeps r uri =
      Ensures-if (matches m uri) _ _
        (λ _. Ensures-bind _ _ (Ensures-context _ _ _ (r.get_keeps uri)) λ raw _.
          Ensures-bind {Q = Always} _ _ (Ensures-lift _ (λ _ _. tt))
            λ _ _. Ensures-lift _ (λ _ _. tt))
        (λ _. Ensures-pure tt tt)

  module _ (target : Storage W) (reads : Reads P target)
      (writes : WritesUnder P m.target target) where
    pub store-Keeps :
        (uri body : Bytes)
        → matches m uri ≡ true
        → Keeps P (put_and_verify target (apply m uri) body)
    store-Keeps uri body h =
        put_and_verify-Keeps target (apply m uri) body
          (writes (apply m uri) body (has_prefix-apply m uri h)) (reads.head_keeps (apply m uri))

    store_columns-Keeps :
        (uri raw : Bytes) (tbl : Table) (r : List Array × Bool)
        → matches m uri ≡ true
        → Keeps P (store_columns pq source m target uri raw tbl r)
    unfolding store_columns
    store_columns-Keeps uri raw tbl (cols, mutated) h =
        Ensures-if mutated _ _
          (λ _. Ensures-bind {Q = Always} _ _ (Ensures-lift _ (λ _ _. tt)) λ body _.
            Ensures-bind _ _ (Ensures-context _ _ _ (store-Keeps uri body h))
              λ _ _. Ensures-pure _ tt)
          (λ _. Ensures-pure _ tt)

    pub rewrite_position_delete_file-Keeps :
        Reads P source
        → (uri : Bytes) → Keeps P (rewrite_position_delete_file pq source m target uri)
    unfolding rewrite_position_delete_file
    rewrite_position_delete_file-Keeps r uri =
        Ensures-if (matches m uri) _ _
          (λ h. Ensures-bind _ _ (Ensures-context _ _ _ (r.get_keeps uri)) λ raw _.
            Ensures-bind {Q = Always} _ _ (Ensures-lift _ (λ _ _. tt)) λ opened _.
              Ensures-bind {Q = Always} _ _ (Ensures-lift _ (λ _ _. tt))
                λ cols _. store_columns-Keeps uri raw opened.0 cols h)
          (λ _. Ensures-pure _ tt)
