-- ===== src/Metadata/Edit/Made.antt =====
-- What `ApplyMetadataJSONMapping` makes of a value: relations between documents before and after, and
-- the edits that keep to them.
use bergrebase.Base.{
  ==_refl, All, Bytes, List, [], arith, inl, inr, int_eq, list_eq, nat_eq, refl, some, suc, ℕ, ◌∙◌,
  ◌∷◌, ◌≡◌, ◌≢◌, ◌⊎◌,
}
use bergrebase.Json.{Json, Items, nil, cons, Fields, array, object, get_field, set_field}
use bergrebase.Json.Objects.{get_field-set_field}
use bergrebase.Metadata.Edit.{Progress, Edit, on_object, each_item, on_array, at_key, in_order}
use bergrebase.Metadata.Edit.Settled.{get_field-at_key, get_field-in_order}

-- The objects have the same values, and lack the same keys, but for these.
abbrev pub SameBut : List Bytes → Fields → Fields → Type 0
SameBut keys fs fs' = (key : Bytes) → All (λ k. k ≢ key) keys → get_field key fs' ≡ get_field key fs

-- An object stays the same but for these keys, and any other value stays.
abbrev pub ObjectSameBut : List Bytes → Json → Json → Type 0
ObjectSameBut keys (object fs) v' = (fs' : Fields) × (v' ≡ object fs') × SameBut keys fs fs'
ObjectSameBut keys v v' = v' ≡ v

abbrev pub Each : (Json → Json → Type 0) → Items → Items → Type 0
Each R nil nil = Unit
Each R nil (cons y ys) = ⊥
Each R (cons x xs) nil = ⊥
Each R (cons x xs) (cons y ys) = R x y × Each R xs ys

-- An array keeps its length and its items stay in the relation, and any other value stays.
abbrev pub ArrayEach : (Json → Json → Type 0) → Json → Json → Type 0
ArrayEach R (array xs) v' = (ys : Items) × (v' ≡ array ys) × Each R xs ys
ArrayEach R v v' = v' ≡ v

-- A value at the key has one in the relation in its place.
abbrev pub ValueAt : (Json → Json → Type 0) → Bytes → Fields → Fields → Type 0
ValueAt R key fs fs' =
    (v : Json) → get_field key fs ≡ some v → (v' : Json) × (get_field key fs' ≡ some v') × R v v'

-- An edit whose results are in the relation.
abbrev pub Makes : (Json → Json → Type 0) → Edit Json → Type 0
Makes R f = (v : Json) (st : Progress) → R v (f v st).0

pub on_object-Makes :
    (keys : List Bytes) (es : List (Bytes × Edit Json))
    → ((key : Bytes) → All (λ k. k ≢ key) keys → All (λ (d : Bytes × Edit Json). d.0 ≢ key) es)
    → Makes (ObjectSameBut keys) (on_object (in_order es))
unfolding on_object
on_object-Makes keys es named (object fs) st =
    (_, refl, λ key h. get_field-in_order key es fs st (named key h))
on_object-Makes keys es named _ st = refl

each_item-Each :
    (R : Json → Json → Type 0) (f : ℕ → Edit Json)
    → ((i : ℕ) → Makes R (f i))
    → (i : ℕ) (xs : Items) (st : Progress) → Each R xs (each_item f i xs st).0
unfolding each_item
each_item-Each R f h i nil st = tt
each_item-Each R f h i (cons x xs) st = (h i x st, each_item-Each R f h (suc i) xs (f i x st).1)

pub on_array-Makes :
    (R : Json → Json → Type 0) (f : ℕ → Edit Json)
    → ((i : ℕ) → Makes R (f i))
    → Makes (ArrayEach R) (on_array f)
unfolding on_array
on_array-Makes R f h (array xs) st = (_, refl, each_item-Each R f h 0 xs st)
on_array-Makes R f h _ st = refl

-- The edit at the key makes its value, and the later ones leave it.
in_order-here :
    (R : Json → Json → Type 0) (key : Bytes) (f : Edit Json) (es : List (Bytes × Edit Json))
    → Makes R f
    → All (λ (d : Bytes × Edit Json). d.0 ≢ key) es
    → (fs : Fields) (st : Progress) → ValueAt R key fs (in_order ((key, f) ∷ es) fs st).0
unfolding in_order at_key
in_order-here R key f es makes n fs st v e = (
  (f v st).0,
  get_field-in_order key es (at_key key f fs st).0 (at_key key f fs st).1 n ∙ rw (e, at_key) stored,
  makes v st,
)
  where
    stored : get_field key (set_field key (f v st).0 fs) ≡ some (f v st).0
    stored = ground (arith, get_field-set_field key key (f v st).0 fs, ==_refl key)

-- An edit of another key comes before.
in_order-later :
    (R : Json → Json → Type 0) (key j : Bytes) (f : Edit Json) (es : List (Bytes × Edit Json))
    → j ≢ key
    → ((fs : Fields) (st : Progress) → ValueAt R key fs (in_order es fs st).0)
    → (fs : Fields) (st : Progress) → ValueAt R key fs (in_order ((j, f) ∷ es) fs st).0
unfolding in_order
in_order-later R key j f es ne h fs st v e =
    h (at_key j f fs st).0 (at_key j f fs st).1 v (get_field-at_key j key f fs st ne ∙ e)

-- One of the edits is at the key, and makes its value.
abbrev pub MakesAt : (Json → Json → Type 0) → Bytes → List (Bytes × Edit Json) → Type 0
MakesAt R key [] = ⊥
MakesAt R key ((j, f) ∷ es) =
    ((j ≡ key) × Makes R f × All (λ (d : Bytes × Edit Json). d.0 ≢ key) es)
    ⊎ ((j ≢ key) × MakesAt R key es)

pub in_order-ValueAt :
    (R : Json → Json → Type 0) (key : Bytes) (es : List (Bytes × Edit Json))
    → MakesAt R key es
    → (fs : Fields) (st : Progress) → ValueAt R key fs (in_order es fs st).0
in_order-ValueAt R key [] h = absurd h
in_order-ValueAt R key ((j, f) ∷ es) (inl (same, makes, n)) =
    rw same (in_order-here R key f es makes n)
in_order-ValueAt R key ((j, f) ∷ es) (inr (ne, h)) =
    in_order-later R key j f es ne (in_order-ValueAt R key es h)
