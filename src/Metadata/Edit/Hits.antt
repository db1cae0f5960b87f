-- ===== src/Metadata/Edit/Hits.antt =====
-- The hits that an edit adds, whatever was found before.
use bergrebase.Base.{
  All, Bytes, List, [], append-nil, append_assoc, false, inl, inr, none, refl, some, suc, sym, ℕ,
  ◌++◌, ◌∙◌, ◌∷◌, ◌≡◌, ◌≢◌, ◌⊎◌,
}
use bergrebase.Prefix.{PrefixMapping, matches}
use bergrebase.Json.{Json, Items, nil, cons, Fields, end, field, string, object, get_field}
use bergrebase.Metadata.{PathHit, hit}
use bergrebase.Metadata.Edit.{
  Progress, Edit, mut_string, on_string, on_object, each_item, at_key, in_order, in_scope,
  each_summary,
}
use bergrebase.Metadata.Edit.Settled.{DistinctKeys, get_field-at_key}

-- At `x` the edit adds the hits.
abbrev pub Adds : {X : Type 0} → Edit X → X → List PathHit → Type 0
Adds f x hs = (st : Progress) → (f x st).1.hits ≡ st.hits ++ hs

-- The edit adds the hits at the key, and none if the key is missing.
abbrev pub AddsAt : Bytes → Edit Json → Fields → List PathHit → Type 0
AddsAt key f fs hs =
    ((get_field key fs ≡ none) × (hs ≡ []))
    ⊎ ((v : Json) × (get_field key fs ≡ some v) × Adds f v hs)

-- Together the edits add the hits.
abbrev pub AllAdd : List (Bytes × Edit Json) → Fields → List PathHit → Type 0
AllAdd [] fs hs = hs ≡ []
AllAdd ((key, f) ∷ rest) fs hs =
    (now : List PathHit) × (later : List PathHit) × AddsAt key f fs now
    × AllAdd rest fs later
    × (hs ≡ now ++ later)

pub on_string-Adds :
    (m : PrefixMapping) (name s : Bytes) → Adds (on_string m name) (string s) (hit m name s ∷ [])
unfolding on_string mut_string hit
on_string-Adds m name s st = refl

pub on_object-Adds :
    (f : Edit Fields) (fs : Fields) (hs : List PathHit)
    → Adds f fs hs
    → Adds (on_object f) (object fs) hs
unfolding on_object
on_object-Adds f fs hs h st = h st

pub at_key-Adds :
    (key : Bytes) (f : Edit Json) (fs : Fields) (hs : List PathHit)
    → AddsAt key f fs hs
    → Adds (at_key key f) fs hs
unfolding at_key
at_key-Adds key f fs hs (inl (e, empty)) st = rw (e, at_key, empty) (sym (append-nil st.hits))
at_key-Adds key f fs hs (inr (v, e, h)) st = rw (e, at_key) (h st)

-- An edit of another key leaves what the edits add.
AllAdd-at_key :
    (key : Bytes) (f : Edit Json) (fs : Fields) (st : Progress) (es : List (Bytes × Edit Json))
    (hs : List PathHit)
    → All (λ (d : Bytes × Edit Json). d.0 ≢ key) es
    → AllAdd es fs hs
    → AllAdd es (at_key key f fs st).0 hs
AllAdd-at_key key f fs st [] hs n h = h
AllAdd-at_key key f fs st ((j, g) ∷ es) hs (ne, n) (now, later, here, rest, e) =
    (now, later, moved here, AllAdd-at_key key f fs st es later n rest, e)
  where
    same : get_field j (at_key key f fs st).0 ≡ get_field j fs
    same = get_field-at_key key j f fs st (λ p. ne (sym p))

    moved : AddsAt j g fs now → AddsAt j g (at_key key f fs st).0 now
    moved (inl (missing, empty)) = inl (same ∙ missing, empty)
    moved (inr (v, there, a)) = inr (v, same ∙ there, a)

pub in_order-Adds :
    (es : List (Bytes × Edit Json)) (fs : Fields) (hs : List PathHit)
    → DistinctKeys es
    → AllAdd es fs hs
    → Adds (in_order es) fs hs
unfolding in_order
in_order-Adds [] fs hs d e st = rw e (sym (append-nil st.hits))
in_order-Adds ((key, f) ∷ es) fs hs (n, d) (now, later, here, rest, e) st =
    in_order-Adds es (at_key key f fs st).0 later d (AllAdd-at_key key f fs st es later n rest)
      (at_key key f fs st).1
    ∙ rw (at_key-Adds key f fs now here st, e) (append_assoc st.hits now later)

-- The items stand for the values, one for one.
abbrev pub Listed : {A : Type 0} → (Json → A → Type 0) → Items → List A → Type 0
Listed R nil [] = Unit
Listed R nil (x ∷ xs) = ⊥
Listed R (cons j js) [] = ⊥
Listed R (cons j js) (x ∷ xs) = R j x × Listed R js xs

-- A loop over the items adds what a walk of the values reports.
pub each_item-Adds :
    {A : Type 0} (R : Json → A → Type 0) (f : ℕ → Edit Json) (walk : ℕ → List A → List PathHit)
    (step : ℕ → A → List PathHit)
    → ((i : ℕ) → walk i [] ≡ [])
    → ((i : ℕ) (x : A) (xs : List A) → walk i (x ∷ xs) ≡ step i x ++ walk (suc i) xs)
    → ((i : ℕ) (j : Json) (x : A) → R j x → Adds (f i) j (step i x))
    → (i : ℕ) (js : Items) (xs : List A) → Listed R js xs
    → Adds (each_item f i) js (walk i xs)
unfolding each_item
each_item-Adds R f walk step empty more one i nil [] l st = rw (empty i) (sym (append-nil st.hits))
each_item-Adds R f walk step empty more one i nil (x ∷ xs) l st = absurd l
each_item-Adds R f walk step empty more one i (cons j js) [] l st = absurd l
each_item-Adds R f walk step empty more one i (cons j js) (x ∷ xs) (r, l) st =
    each_item-Adds R f walk step empty more one (suc i) js xs l (f i j st).1
    ∙ rw (one i j x r st, more i x xs) (append_assoc st.hits (step i x) (walk (suc i) xs))

-- No string among the values is in the scope of the mapping.
abbrev pub OutOfScope : PrefixMapping → Fields → Type 0
OutOfScope m end = Unit
OutOfScope m (field key (string s) fs) = (matches m s ≡ false) × OutOfScope m fs
OutOfScope m (field key v fs) = OutOfScope m fs

pub each_summary-Adds :
    (quote : Bytes → Bytes) (m : PrefixMapping) (i : ℕ) (fs : Fields)
    → OutOfScope m fs
    → Adds (each_summary quote m i) fs []
unfolding each_summary in_scope
each_summary-Adds quote m i end o st = sym (append-nil st.hits)
each_summary-Adds quote m i (field key (string s) fs) (out, o) st =
    rw out (each_summary-Adds quote m i fs o st)
each_summary-Adds quote m i (field key v fs) o st = each_summary-Adds quote m i fs o st
