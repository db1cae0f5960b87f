-- ===== src/Cli/Namespaces.antt =====
-- cmd/bergrb/main.go: `listAllNamespaces` and `selectBatches`.
pub mod Walk
pub mod Keys
pub mod Complete
use bergrebase.Base.{
  Action, Bool, Bytes, List, Option, [], codes, context, false, if◌then◌else◌, int_eq, join,
  list_eq, nat_eq, none, pure, some, split, suc, text, true, zero, ℕ, ◌++◌, ◌==◌, ◌>>=◌, ◌||◌, ◌∷◌,
}
use bergrebase.Catalog.{Namespace, Identifier, Catalog}
use bergrebase.Cli.{Config}

-- `nsBatch`
pub record NsBatch : Type 0 where
  pub ns : Namespace
  pub tables : List Identifier

-- `namespaceLabel`
unfoldable pub namespace_label : Namespace → Bytes
unfolding join
namespace_label [] = codes "<root>"
namespace_label (p ∷ ps) = join (p ∷ ps) (codes ".")

-- `strings.Join(ns, "\x1f")`
unfoldable pub key_of : Namespace → Bytes
unfolding join
key_of ns = join ns (31 ∷ [])

-- `visited[key]`
unfoldable pub is_visited : Bytes → List Bytes → Bool
is_visited key [] = false
is_visited key (k ∷ visited) = k == key || is_visited key visited

module _ {W : Type 0} (cat : Catalog W) where
  -- `for len(queue) > 0 { … }`. Of the rounds, `none` says that they ran out.
  unfoldable pub visit_queue :
      ℕ → List Namespace → List Bytes → List Namespace → Action W (Option (List Namespace))
  unfolding key_of is_visited namespace_label
  visit_queue rounds [] visited all = pure (some all)
  visit_queue zero (ns ∷ queue) visited all = pure none
  visit_queue (suc rounds) (ns ∷ queue) visited all = elim (is_visited (key_of ns) visited) [
    | true ↦ visit_queue rounds queue visited all
    | false ↦
        context "list child namespaces of %s: %w" (text (namespace_label ns) ∷ [])
          (cat.list_namespaces ns)
        >>= λ children.
            visit_queue rounds (queue ++ children) (key_of ns ∷ visited) (all ++ ns ∷ [])
  ]

  -- `listAllNamespaces`
  unfoldable pub list_all_namespaces : ℕ → Action W (Option (List Namespace))
  unfolding visit_queue
  list_all_namespaces rounds = do
    roots ← context "list root namespaces: %w" [] (cat.list_namespaces [])
    visit_queue rounds roots [] []

  -- the loop of `selectBatches` over all namespaces
  unfoldable pub batches_of : List Namespace → Action W (List NsBatch)
  unfolding namespace_label
  batches_of [] = pure []
  batches_of (ns ∷ rest) = do
    tables ← context "list tables in %s: %w" (text (namespace_label ns) ∷ []) (cat.list_tables ns)
    later ← batches_of rest
    pure (record { ns = ns; tables = tables } ∷ later)

  unfoldable pub batches_if_listed : Option (List Namespace) → Action W (Option (List NsBatch))
  unfolding batches_of
  batches_if_listed none = pure none
  batches_if_listed (some all) = do batches ← batches_of all; pure (some batches)

  -- `selectBatches`
  unfoldable pub select_batches : ℕ → Config → Action W (Option (List NsBatch))
  unfolding list_all_namespaces batches_if_listed split
  select_batches rounds cfg =
      if cfg.all_namespaces
      then (do all ← list_all_namespaces rounds; batches_if_listed all)
      else (let ns = split cfg.namespace 46 in
          if cfg.all_tables
          then (do
            tables ← cat.list_tables ns
            pure (some (record { ns = ns; tables = tables } ∷ [])))
          else pure (
              some (
                record { ns = ns; tables = record { namespace = ns; name = cfg.table } ∷ [] }
                ∷ [])))
