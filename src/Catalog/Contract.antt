-- ===== src/Catalog/Contract.antt =====
-- What a `Catalog` promises for one table: the comments on `LoadTable` and `SwapMetadataLocation` in
-- internal/catalog/catalog.go, and what is left of them where a rollback may fail.
use bergrebase.Base.{
  Bool, Bytes, Ends, Error, Option, err, false, none, some, true, wrap_both, wrapf, ◌≡◌, ◌≢◌, ◌⊎◌,
}
use bergrebase.Catalog.{Identifier, Catalog}

-- An error that holds two: that of the registration and that of the rollback.
abbrev pub reports_both : Error → Bool
reports_both (wrap_both _ _ e rb) = true
reports_both (wrapf _ _ e) = reports_both e
reports_both _ = false

-- The pointer is as it was before, or it is gone and the error reports both failures.
abbrev pub NotSwapped : Option Bytes → Error → Option Bytes → Type 0
NotSwapped before e after = (after ≡ before) ⊎ ((after ≡ none) × (reports_both e ≡ true))

-- `pointer` is the location that the catalog holds for the table `id`, in a world where the catalog
-- is `Ready`. Loading tells it and leaves it; a swap exchanges it if it is at the old location, and
-- on error leaves it, or reports that it is gone: this is less than the comment in catalog.go asks.
pub record BestEffort {W : Type 0} (cat : Catalog W) (Ready : W → Type 0) (id : Identifier)
    (pointer : W → Option Bytes) : Type 0 where
  pub loads :
      (w : W)
      → Ready w
      → Ends
          (cat.load_table id)
          w
          (λ table w'.
            Ready w' × (pointer w' ≡ pointer w) × (pointer w ≡ some table.metadata_location))
          (λ e w'. Ready w' × (pointer w' ≡ pointer w))
  pub swaps :
      (old new : Bytes) (w : W)
      → Ready w
      → old ≢ new
      → Ends
          (cat.swap_metadata_location id old new)
          w
          (λ u w'. Ready w' × (pointer w ≡ some old) × (pointer w' ≡ some new))
          (λ e w'. NotSwapped (pointer w) e (pointer w'))
  pub stays :
      (old : Bytes) (w : W)
      → Ready w
      → Ends
          (cat.swap_metadata_location id old old)
          w
          (λ u w'. Ready w' × (pointer w' ≡ pointer w))
          (λ e w'. pointer w' ≡ pointer w)

-- The contract of catalog.go: moreover, on error a swap has rolled the pointer back.
pub record Contract {W : Type 0} (cat : Catalog W) (Ready : W → Type 0) (id : Identifier)
    (pointer : W → Option Bytes) : Type 0 where
  pub effort : BestEffort cat Ready id pointer
  pub rolls_back :
      (old new : Bytes) (w w' : W) (e : Error)
      → Ready w
      → cat.swap_metadata_location id old new w ≡ (err e, w')
      → pointer w' ≡ pointer w
