-- ===== src/Catalog/Pointer.antt =====
-- What the load and the swap do to the pointer of a catalog with the weaker contract.
use bergrebase.Base.{
  Bool-cases, Bytes, Ends, Ends-weaken, Keeps, OnResult, Option, Result, err, inl, inr, int_eq,
  list_beq_iff, list_eq, nat_eq, ok, some, ◌==◌, ◌∙◌, ◌≡◌,
}
use bergrebase.Catalog.{Identifier, Table, Catalog}
use bergrebase.Catalog.Contract.{BestEffort, NotSwapped}

module _ {W : Type 0} (cat : Catalog W) (id : Identifier) (Ready : W → Type 0)
    (pointer : W → Option Bytes) (c : BestEffort cat Ready id pointer) where
  -- The catalog is ready and has the pointer `p`.
  abbrev At : Option Bytes → W → Type 0
  At p w = Ready w × (pointer w ≡ p)

  pub load_table-Keeps : (p : Option Bytes) → Keeps (At p) (cat.load_table id)
  load_table-Keeps p = record {
    keeps = λ w (ready, at). kept w at (cat.load_table id w) (c.loads w ready);
    returns = λ w a h k. tt;
  }
    where
      kept :
          (w : W)
          → pointer w ≡ p
          → (r : Result Table × W)
          → OnResult
              (λ table w'.
                Ready w' × (pointer w' ≡ pointer w) × (pointer w ≡ some table.metadata_location))
              (λ e w'. Ready w' × (pointer w' ≡ pointer w))
              r
          → At p r.1
      kept w at (ok table, w') (ready, same, _) = (ready, same ∙ at)
      kept w at (err x, w') (ready, same) = (ready, same ∙ at)

  pub swap-Ends :
      (old new : Bytes) (w : W)
      → At (some old) w
      → Ends
          (cat.swap_metadata_location id old new)
          w
          (λ u. At (some new))
          (λ x w'. NotSwapped (some old) x (pointer w'))
  swap-Ends old new w (ready, at) = elim (Bool-cases (old == new)) [
    | inl same ↦
        let e : old ≡ new = (list_beq_iff old new).0 same in
        rw (← e) (
          Ends-weaken (cat.swap_metadata_location id old old) w
            (λ u w'. Ready w' × (pointer w' ≡ pointer w)) (λ u. At (some old))
            (λ x w'. pointer w' ≡ pointer w) (λ x w'. NotSwapped (some old) x (pointer w'))
            (c.stays old w ready) (λ u w' (r, q). (r, q ∙ at)) (λ x w' q. inl (q ∙ at)))
    | inr differs ↦
        Ends-weaken (cat.swap_metadata_location id old new) w
          (λ u w'. Ready w' × (pointer w ≡ some old) × (pointer w' ≡ some new)) (λ u. At (some new))
          (λ x w'. NotSwapped (pointer w) x (pointer w'))
          (λ x w'. NotSwapped (some old) x (pointer w'))
          (c.swaps old new w ready (λ q. absurd (cc ((list_beq_iff old new).1 q, differs))))
          (λ u w' (r, was, now). (r, now)) (λ x w' q. rw at at q)
  ]
