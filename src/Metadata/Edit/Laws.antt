-- ===== src/Metadata/Edit/Laws.antt =====
-- An edit reports a change exactly where it makes one, for each way in which edits are built.
use mathlib.Core.Path.{ap₂}
use bergrebase.Base.{
  All, All-append, Bool, Bool-cases, Bytes, List, Option-cases, [], ap, arith, false, inl, inr,
  int_eq, list_beq_iff, list_eq, nat_eq, not, refl, suc, ℕ, ◌++◌, ◌==◌, ◌||◌, ◌∙◌, ◌∷◌, ◌≡◌,
}
use bergrebase.Prefix.{PrefixMapping, apply, matches}
use bergrebase.Json.{Json, Items, nil, cons, Fields, end, field, string, array, object, get_field}
use bergrebase.Json.Objects.{set_field_same}
use bergrebase.Metadata.{PathHit, rewritten}
use bergrebase.Metadata.Edit.{
  Progress, Edit, mut_string, on_string, on_object, each_item, on_array, at_key, in_order, in_scope,
  each_summary, summary_field,
}

abbrev pub any_rewritten : List PathHit → Bool
any_rewritten [] = false
any_rewritten (h ∷ hs) = rewritten h || any_rewritten hs

-- The hits are substitutions by the mapping, and the flag is set exactly if one of them differs.
pub record Tracks (m : PrefixMapping) (st : Progress) : Type 0 where
  pub applied : All (λ (h : PathHit). h.new ≡ apply m h.old) st.hits
  pub flagged : st.changed ≡ any_rewritten st.hits

-- An edit that reports no change has made none, and it keeps the account of the hits.
pub record IsFaithful (m : PrefixMapping) {X : Type 0} (f : Edit X) : Type 0 where
  pub unchanged :
      (x : X) (st : Progress) → (f x st).1.changed ≡ false → ((f x st).0 ≡ x) × (st.changed ≡ false)
  pub tracks : (x : X) (st : Progress) → Tracks m st → Tracks m (f x st).1

any_rewritten-append :
    (hs : List PathHit) (h : PathHit)
    → any_rewritten (hs ++ h ∷ []) ≡ (any_rewritten hs || rewritten h)
any_rewritten-append [] h = ground arith
any_rewritten-append (g ∷ hs) h = ground (arith, any_rewritten-append hs h)

-- The two comparisons in the source agree.
rewritten-sym : (a b : Bytes) → not (a == b) ≡ not (b == a)
rewritten-sym a b = ground (arith, list_beq_iff a b, list_beq_iff b a)

module _ (m : PrefixMapping) where
  mut_string-Tracks :
      (name s : Bytes) (st : Progress) → Tracks m st → Tracks m (mut_string m name s st).1
  unfolding mut_string rewritten
  mut_string-Tracks name s st t =
      let h : PathHit = record { field = name; old = s; new = apply m s } in
      record {
        applied = All-append _ st.hits _ t.applied (refl, tt);
        flagged =
            ground (arith, t.flagged, any_rewritten-append st.hits h, rewritten-sym s (apply m s));
      }

  mut_string-unchanged :
      (name s : Bytes) (st : Progress)
      → (mut_string m name s st).1.changed ≡ false
      → ((mut_string m name s st).0 ≡ s) × (st.changed ≡ false)
  unfolding mut_string
  mut_string-unchanged name s st h = ground (arith, list_beq_iff (apply m s) s)

  pub on_string-IsFaithful : (name : Bytes) → IsFaithful m (on_string m name)
  unfolding on_string
  on_string-IsFaithful name = record { unchanged = kept; tracks = tracked }
    where
      kept :
          (x : Json) (st : Progress)
          → (on_string m name x st).1.changed ≡ false
          → ((on_string m name x st).0 ≡ x) × (st.changed ≡ false)
      kept (string s) st h = (let (e, f) = mut_string-unchanged name s st h in (ap string e, f))
      kept _ st h = (refl, h)

      tracked : (x : Json) (st : Progress) → Tracks m st → Tracks m (on_string m name x st).1
      tracked (string s) st t = mut_string-Tracks name s st t
      tracked _ st t = t

  pub on_object-IsFaithful : (f : Edit Fields) → IsFaithful m f → IsFaithful m (on_object f)
  unfolding on_object
  on_object-IsFaithful f hf = record { unchanged = kept; tracks = tracked }
    where
      kept :
          (x : Json) (st : Progress)
          → (on_object f x st).1.changed ≡ false
          → ((on_object f x st).0 ≡ x) × (st.changed ≡ false)
      kept (object fs) st h = let (e, g) = hf.unchanged fs st h in (ap object e, g)
      kept _ st h = (refl, h)

      tracked : (x : Json) (st : Progress) → Tracks m st → Tracks m (on_object f x st).1
      tracked (object fs) st t = hf.tracks fs st t
      tracked _ st t = t

  module _ (f : ℕ → Edit Json) (hf : (i : ℕ) → IsFaithful m (f i)) where
    each_item-unchanged :
        (i : ℕ) (xs : Items) (st : Progress)
        → (each_item f i xs st).1.changed ≡ false
        → ((each_item f i xs st).0 ≡ xs) × (st.changed ≡ false)
    unfolding each_item
    each_item-unchanged i nil st h = (refl, h)
    each_item-unchanged i (cons x xs) st h =
        let (e, g) = each_item-unchanged (suc i) xs (f i x st).1 h in
        let (e', g') = (hf i).unchanged x st g in (ap₂ cons e' e, g')

    each_item-Tracks :
        (i : ℕ) (xs : Items) (st : Progress) → Tracks m st → Tracks m (each_item f i xs st).1
    unfolding each_item
    each_item-Tracks i nil st t = t
    each_item-Tracks i (cons x xs) st t =
        each_item-Tracks (suc i) xs (f i x st).1 ((hf i).tracks x st t)

    pub on_array-IsFaithful : IsFaithful m (on_array f)
    unfolding on_array
    on_array-IsFaithful = record { unchanged = kept; tracks = tracked }
      where
        kept :
            (x : Json) (st : Progress)
            → (on_array f x st).1.changed ≡ false
            → ((on_array f x st).0 ≡ x) × (st.changed ≡ false)
        kept (array xs) st h = let (e, g) = each_item-unchanged 0 xs st h in (ap array e, g)
        kept _ st h = (refl, h)

        tracked : (x : Json) (st : Progress) → Tracks m st → Tracks m (on_array f x st).1
        tracked (array xs) st t = each_item-Tracks 0 xs st t
        tracked _ st t = t

  at_key-IsFaithful : (key : Bytes) (f : Edit Json) → IsFaithful m f → IsFaithful m (at_key key f)
  unfolding at_key
  at_key-IsFaithful key f hf = record { unchanged = kept; tracks = tracked }
    where
      kept :
          (x : Fields) (st : Progress)
          → (at_key key f x st).1.changed ≡ false
          → ((at_key key f x st).0 ≡ x) × (st.changed ≡ false)
      kept fs st h = elim (Option-cases (get_field key fs)) [
        | inl e ↦ ground arith
        | inr (v, e) ↦ ground (arith, hf.unchanged v st, set_field_same key v fs e)
      ]

      tracked : (x : Fields) (st : Progress) → Tracks m st → Tracks m (at_key key f x st).1
      tracked fs st t = elim (Option-cases (get_field key fs)) [
        | inl e ↦ rw (e, at_key) t
        | inr (v, e) ↦ rw (e, at_key) (hf.tracks v st t)
      ]

  -- Every edit of the list is faithful.
  abbrev pub AllFaithful : List (Bytes × Edit Json) → Type 0
  AllFaithful = All (λ e. IsFaithful m e.1)

  pub in_order-IsFaithful :
      (edits : List (Bytes × Edit Json)) → AllFaithful edits → IsFaithful m (in_order edits)
  unfolding in_order
  in_order-IsFaithful [] h = record { unchanged = λ x st e. (refl, e); tracks = λ x st t. t }
  in_order-IsFaithful ((key, f) ∷ rest) (hf, hr) =
      let first = at_key-IsFaithful key f hf in
      let later = in_order-IsFaithful rest hr in
      record {
        unchanged = λ x st e.
            let (p, g) = later.unchanged (at_key key f x st).0 (at_key key f x st).1 e in
            let (q, g') = first.unchanged x st g in (p ∙ q, g');
        tracks = λ x st t. later.tracks _ _ (first.tracks x st t);
      }

  module _ (quote : Bytes → Bytes) where
    in_scope-IsFaithful : (name : Bytes) → IsFaithful m (in_scope quote m name)
    unfolding in_scope
    in_scope-IsFaithful name = record { unchanged = kept; tracks = tracked }
      where
        kept :
            (x : Json) (st : Progress)
            → (in_scope quote m name x st).1.changed ≡ false
            → ((in_scope quote m name x st).0 ≡ x) × (st.changed ≡ false)
        kept (string s) st h = ground (arith, (on_string-IsFaithful name).unchanged (string s) st)
        kept _ st h = (refl, h)

        tracked : (x : Json) (st : Progress) → Tracks m st → Tracks m (in_scope quote m name x st).1
        tracked (string s) st t = elim (Bool-cases (matches m s)) [
          | inl e ↦ rw (e, in_scope) ((on_string-IsFaithful name).tracks (string s) st t)
          | inr e ↦ rw (e, in_scope) t
        ]
        tracked _ st t = t

    pub each_summary-IsFaithful : (i : ℕ) → IsFaithful m (each_summary quote m i)
    unfolding each_summary
    each_summary-IsFaithful i = record { unchanged = kept; tracks = tracked }
      where
        kept :
            (x : Fields) (st : Progress)
            → (each_summary quote m i x st).1.changed ≡ false
            → ((each_summary quote m i x st).0 ≡ x) × (st.changed ≡ false)
        kept end st h = (refl, h)
        kept (field key v fs) st h = ground (
          arith,
          kept fs (in_scope quote m (summary_field quote m i key) v st).1,
          (in_scope-IsFaithful (summary_field quote m i key)).unchanged v st,
        )

        tracked :
            (x : Fields) (st : Progress) → Tracks m st → Tracks m (each_summary quote m i x st).1
        tracked end st t = t
        tracked (field key v fs) st t =
            tracked fs _ ((in_scope-IsFaithful (summary_field quote m i key)).tracks v st t)
