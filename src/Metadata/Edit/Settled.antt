-- ===== src/Metadata/Edit/Settled.antt =====
-- Edits leave nothing for themselves to do: on what an edit produced, it reports no change.
use bergrebase.Base.{
  ==_refl, All, Bytes, List, Option-cases, [], arith, inl, inr, int_eq, list_beq_iff, list_eq,
  nat_eq, refl, some, suc, sym, ℕ, ◌∙◌, ◌∷◌, ◌≡◌, ◌≢◌,
}
use bergrebase.Prefix.{PrefixMapping, apply}
use bergrebase.Prefix.Laws.{NotNested, apply-apply, matches-apply}
use bergrebase.Json.{Json, nil, cons, Fields, end, field, string, array, object, get_field}
use bergrebase.Json.Objects.{get_field-set_field}
use bergrebase.Metadata.Edit.{
  Progress, Edit, mut_string, on_string, on_object, each_item, on_array, at_key, in_order, in_scope,
  each_summary, summary_field,
}

-- The edit reports no change at `x`, whatever happened before.
abbrev pub Quiet : {X : Type 0} → Edit X → X → Type 0
Quiet f x = (st : Progress) → (f x st).1.changed ≡ st.changed

-- The edit is quiet at everything that it produced.
abbrev pub Settles : {X : Type 0} → Edit X → Type 0
Settles {X} f = (x : X) (st : Progress) → Quiet f (f x st).0

-- The edit at `key` would be quiet.
abbrev pub QuietAt : Bytes × Edit Json → Fields → Type 0
QuietAt e fs = (v : Json) → get_field e.0 fs ≡ some v → Quiet e.1 v

-- The keys of the edits are different.
abbrev pub DistinctKeys : List (Bytes × Edit Json) → Type 0
DistinctKeys [] = Unit
DistinctKeys (e ∷ rest) = All (λ (d : Bytes × Edit Json). d.0 ≢ e.0) rest × DistinctKeys rest

pub get_field-at_key :
    (key j : Bytes) (f : Edit Json) (fs : Fields) (st : Progress)
    → key ≢ j
    → get_field j (at_key key f fs st).0 ≡ get_field j fs
unfolding at_key
get_field-at_key key j f fs st ne = elim (Option-cases (get_field key fs)) [
  | inl e ↦ ground arith
  | inr (v, e) ↦ ground (arith, get_field-set_field key j (f v st).0 fs, list_beq_iff key j)
]

-- The key of an edit holds what the edit produced.
at_key-QuietAt :
    (key : Bytes) (f : Edit Json) (fs : Fields) (st : Progress)
    → Settles f
    → QuietAt (key, f) (at_key key f fs st).0
unfolding at_key
at_key-QuietAt key f fs st s v h = elim (Option-cases (get_field key fs)) [
  | inl e ↦ absurd (ground arith)
  | inr (w, e) ↦ rw (stored w e) (s w st)
]
  where
    stored : (w : Json) → get_field key fs ≡ some w → v ≡ (f w st).0
    stored w e = ground (arith, get_field-set_field key key (f w st).0 fs, ==_refl key)

at_key-Quiet :
    (key : Bytes) (f : Edit Json) (fs : Fields) → QuietAt (key, f) fs → Quiet (at_key key f) fs
unfolding at_key
at_key-Quiet key f fs q st = elim (Option-cases (get_field key fs)) [
  | inl e ↦ rw (e, at_key)
  | inr (v, e) ↦ rw (e, at_key) (q v e st)
]

pub get_field-in_order :
    (j : Bytes) (edits : List (Bytes × Edit Json)) (fs : Fields) (st : Progress)
    → All (λ (d : Bytes × Edit Json). d.0 ≢ j) edits
    → get_field j (in_order edits fs st).0 ≡ get_field j fs
unfolding in_order
get_field-in_order j [] fs st h = refl
get_field-in_order j ((key, f) ∷ rest) fs st (ne, h) =
    get_field-in_order j rest _ _ h ∙ get_field-at_key key j f fs st ne

QuietAt-at_key :
    (key : Bytes) (f : Edit Json) (fs : Fields) (st : Progress) (edits : List (Bytes × Edit Json))
    → All (λ (d : Bytes × Edit Json). d.0 ≢ key) edits
    → All (λ (d : Bytes × Edit Json). QuietAt d fs) edits
    → All (λ (d : Bytes × Edit Json). QuietAt d (at_key key f fs st).0) edits
QuietAt-at_key key f fs st [] n q = tt
QuietAt-at_key key f fs st ((j, g) ∷ rest) (ne, n) (q, qs) = (
  λ v e. q v (sym (get_field-at_key key j f fs st (λ p. ne (sym p))) ∙ e),
  QuietAt-at_key key f fs st rest n qs,
)

in_order-Quiet :
    (edits : List (Bytes × Edit Json)) (fs : Fields)
    → DistinctKeys edits
    → All (λ (d : Bytes × Edit Json). QuietAt d fs) edits
    → Quiet (in_order edits) fs
unfolding in_order
in_order-Quiet [] fs d q st = refl
in_order-Quiet ((key, f) ∷ rest) fs (n, d) (q, qs) st =
    in_order-Quiet rest (at_key key f fs st).0 d (QuietAt-at_key key f fs st rest n qs)
      (at_key key f fs st).1
    ∙ at_key-Quiet key f fs q st

abbrev pub AllSettle : List (Bytes × Edit Json) → Type 0
AllSettle = All (λ (e : Bytes × Edit Json). Settles e.1)

in_order-QuietAt :
    (edits : List (Bytes × Edit Json)) (fs : Fields) (st : Progress)
    → DistinctKeys edits
    → AllSettle edits
    → All (λ (d : Bytes × Edit Json). QuietAt d (in_order edits fs st).0) edits
unfolding in_order
in_order-QuietAt [] fs st d s = tt
in_order-QuietAt ((key, f) ∷ rest) fs st (n, d) (s, ss) = (
  λ v e.
      at_key-QuietAt key f fs st s v
        (sym (get_field-in_order key rest (at_key key f fs st).0 (at_key key f fs st).1 n) ∙ e),
  in_order-QuietAt rest (at_key key f fs st).0 (at_key key f fs st).1 d ss,
)

pub in_order-Settles :
    (edits : List (Bytes × Edit Json))
    → DistinctKeys edits
    → AllSettle edits
    → Settles (in_order edits)
in_order-Settles edits d s fs st =
    in_order-Quiet edits (in_order edits fs st).0 d (in_order-QuietAt edits fs st d s)

pub on_object-Settles : (f : Edit Fields) → Settles f → Settles (on_object f)
unfolding on_object
on_object-Settles f s (object fs) st st' = s fs st st'
on_object-Settles f s _ st st' = refl

each_item-Settles :
    (f : ℕ → Edit Json) → ((i : ℕ) → Settles (f i)) → (i : ℕ) → Settles (each_item f i)
unfolding each_item
each_item-Settles f s i nil st st' = refl
each_item-Settles f s i (cons x xs) st st' =
    each_item-Settles f s (suc i) xs (f i x st).1 (f i (f i x st).0 st').1 ∙ s i x st st'

pub on_array-Settles : (f : ℕ → Edit Json) → ((i : ℕ) → Settles (f i)) → Settles (on_array f)
unfolding on_array
on_array-Settles f s (array xs) st st' = each_item-Settles f s 0 xs st st'
on_array-Settles f s _ st st' = refl

module _ (m : PrefixMapping) (n : NotNested m) where
  mut_string-Settles : (name : Bytes) → Settles (mut_string m name)
  unfolding mut_string
  mut_string-Settles name s st st' = ground (arith, apply-apply m n s, ==_refl (apply m s))

  pub on_string-Settles : (name : Bytes) → Settles (on_string m name)
  unfolding on_string
  on_string-Settles name (string s) st st' = mut_string-Settles name s st st'
  on_string-Settles name _ st st' = refl

  module _ (quote : Bytes → Bytes) where
    in_scope-Settles : (name : Bytes) → Settles (in_scope quote m name)
    unfolding in_scope mut_string
    in_scope-Settles name (string s) st st' = ground (arith, matches-apply m n s)
    in_scope-Settles name _ st st' = refl

    pub each_summary-Settles : (i : ℕ) → Settles (each_summary quote m i)
    unfolding each_summary
    each_summary-Settles i end st st' = refl
    each_summary-Settles i (field key v fs) st st' =
        let name = summary_field quote m i key in
        each_summary-Settles i fs (in_scope quote m name v st).1
          (in_scope quote m name (in_scope quote m name v st).0 st').1
        ∙ in_scope-Settles name v st st'
