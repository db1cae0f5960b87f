-- ===== src/Manifest/Hits.antt =====
-- What the hits of `RewriteManifest` and of `WalkManifest` are, and what both refuse.
use mathlib.Core.Path.{ap₂}
use bergrebase.Base.{
  >>=-eq-ok, All, Bool, Bool-cases, List, [], ap, fail, false, inl, inr, is_negative, not, ok,
  pure-eq-ok, refl, suc, sym, true, ℕ, ◌++◌, ◌∙◌, ◌∷◌, ◌≡◌,
}
use bergrebase.Prefix.{PrefixMapping}
use bergrebase.Storage.{Storage}
use bergrebase.Iceberg.{
  ManifestFile, DataFile, Entry, EntryContent, content_data, content_pos_deletes,
  content_eq_deletes, content_other,
}
use bergrebase.Metadata.{PathHit}
use bergrebase.PositionDelete.{PositionDeleteRewrite}
use bergrebase.Manifest.{is_puffin_path, entry_hits}
use bergrebase.Manifest.Stats.{fixup_entry_stats}
use bergrebase.Manifest.Rewrite.{
  Formats, rewrite_deletes, prepare_entry, rewrite_entry, rewrite_entries, walk_content,
  walk_entries,
}

-- Data files, equality deletes, and position deletes that are no Puffin file.
abbrev pub supported : EntryContent → DataFile → Bool
supported content_data df = true
supported content_eq_deletes df = true
supported content_pos_deletes df = not (is_puffin_path df.path)
supported (content_other n) df = false

abbrev pub AllSupported : List Entry → Type 0
AllSupported = All (λ (e : Entry). supported e.data_file.content e.data_file ≡ true)

module _ (m : PrefixMapping) (mf : ManifestFile) where
  -- The hits of the entries, from entry `i` on.
  abbrev pub all_hits : ℕ → List Entry → List PathHit
  all_hits i [] = []
  all_hits i (e ∷ rest) = entry_hits m mf i e.data_file ++ all_hits (suc i) rest

  entry_hits-fixup_entry_stats :
      (i : ℕ) (df : DataFile) (pd : PositionDeleteRewrite)
      → entry_hits m mf i (fixup_entry_stats m df pd).0 ≡ entry_hits m mf i df
  unfolding fixup_entry_stats entry_hits
  entry_hits-fixup_entry_stats i df pd = elim (Bool-cases (is_negative pd.new_size)) [
    | inl e ↦ rw (e, fixup_entry_stats) refl
    | inr e ↦ rw (e, fixup_entry_stats) refl
  ]

  module _ (lib : Formats) {W : Type 0} (source : Storage W) where
    walk_content-eq-ok :
        (i : ℕ) (c : EntryContent) (df : DataFile) (w w' : W)
        → walk_content lib source m mf i c df w ≡ (ok tt, w')
        → supported c df ≡ true
    unfolding walk_content fail
    walk_content-eq-ok i content_data df w w' h = refl
    walk_content-eq-ok i content_eq_deletes df w w' h = refl
    walk_content-eq-ok i content_pos_deletes df w w' h =
        elim (Bool-cases (is_puffin_path df.path)) [
          | inl e ↦ absurd (cc (rw e at h))
          | inr e ↦ rw e refl
        ]
    walk_content-eq-ok i (content_other n) df w w' h = absurd (cc)

    walk_entries-eq-ok :
        (i : ℕ) (es : List Entry) (hits : List PathHit) (w w' : W)
        → walk_entries lib source m mf i es w ≡ (ok hits, w')
        → (hits ≡ all_hits i es) × AllSupported es
    unfolding walk_entries
    walk_entries-eq-ok i [] hits w w' h = (sym (pure-eq-ok [] w hits w' h).0, tt)
    walk_entries-eq-ok i (e ∷ rest) hits w w' h =
        let (_, w1, checked, h1) = >>=-eq-ok _ _ w hits w' h in
        let (later, w2, walked, h2) = >>=-eq-ok _ _ w1 hits w' h1 in
        let (same, all) = walk_entries-eq-ok (suc i) rest later w1 w2 walked in
        (
          sym (pure-eq-ok _ w2 hits w' h2).0 ∙ ap (λ x. entry_hits m mf i e.data_file ++ x) same,
          (walk_content-eq-ok i e.data_file.content e.data_file w w1 checked, all),
        )

    module _ (target : Storage W) where
      prepare_entry-eq-ok :
          (i : ℕ) (c : EntryContent) (df df' : DataFile) (changed : Bool) (w w' : W)
          → prepare_entry lib source target m mf i c df w ≡ (ok (df', changed), w')
          → (entry_hits m mf i df' ≡ entry_hits m mf i df) × (supported c df ≡ true)
      unfolding prepare_entry fail rewrite_deletes
      prepare_entry-eq-ok i content_data df df' changed w w' h = (
        ap (λ (p : DataFile × Bool). entry_hits m mf i p.0) (sym (pure-eq-ok _ w _ w' h).0),
        refl,
      )
      prepare_entry-eq-ok i content_eq_deletes df df' changed w w' h = (
        ap (λ (p : DataFile × Bool). entry_hits m mf i p.0) (sym (pure-eq-ok _ w _ w' h).0),
        refl,
      )
      prepare_entry-eq-ok i content_pos_deletes df df' changed w w' h =
          elim (Bool-cases (is_puffin_path df.path)) [
            | inl e ↦ absurd (cc (rw e at h))
            | inr e ↦
                let (pd, w1, _, h1) = >>=-eq-ok _ _ w (df', changed) w' (rw e at h) in
                (
                  ap (λ (p : DataFile × Bool). entry_hits m mf i p.0)
                        (sym (pure-eq-ok _ w1 _ w' h1).0)
                      ∙ entry_hits-fixup_entry_stats i df pd,
                  rw e refl,
                )
          ]
      prepare_entry-eq-ok i (content_other n) df df' changed w w' h = absurd (cc)

      rewrite_entry-eq-ok :
          (i : ℕ) (e e' : Entry) (hits : List PathHit) (changed : Bool) (w w' : W)
          → rewrite_entry lib source target m mf i e w ≡ (ok (e', hits, changed), w')
          → (hits ≡ entry_hits m mf i e.data_file)
            × (supported e.data_file.content e.data_file ≡ true)
      unfolding rewrite_entry
      rewrite_entry-eq-ok i e e' hits changed w w' h =
          let ((df, aligned), w1, prepared, h1) = >>=-eq-ok _ _ w (e', hits, changed) w' h in
          let (same, good) =
            prepare_entry-eq-ok i e.data_file.content e.data_file df aligned w w1 prepared in
          (
            ap (λ (p : Entry × List PathHit × Bool). p.1) (sym (pure-eq-ok _ w1 _ w' h1).0) ∙ same,
            good,
          )

      rewrite_entries-eq-ok :
          (i : ℕ) (es es' : List Entry) (hits : List PathHit) (changed : Bool) (w w' : W)
          → rewrite_entries lib source target m mf i es w ≡ (ok (es', hits, changed), w')
          → (hits ≡ all_hits i es) × AllSupported es
      unfolding rewrite_entries
      rewrite_entries-eq-ok i [] es' hits changed w w' h =
          (ap (λ (p : List Entry × List PathHit × Bool). p.1) (sym (pure-eq-ok _ w _ w' h).0), tt)
      rewrite_entries-eq-ok i (e ∷ rest) es' hits changed w w' h =
          let ((e1, hits1, c1), w1, one, h1) = >>=-eq-ok _ _ w (es', hits, changed) w' h in
          let ((es2, hits2, c2), w2, later, h2) = >>=-eq-ok _ _ w1 (es', hits, changed) w' h1 in
          let (first, good) = rewrite_entry-eq-ok i e e1 hits1 c1 w w1 one in
          let (more, all) = rewrite_entries-eq-ok (suc i) rest es2 hits2 c2 w1 w2 later in
          let end =
            ap (λ (p : List Entry × List PathHit × Bool). p.1) (sym (pure-eq-ok _ w2 _ w' h2).0) in
          (end ∙ ap₂ ◌++◌ first more, (good, all))

-- Where the live rewrite and the dry run of the entries of a manifest both succeed, they report
-- the same hits, and every entry is a data file, an equality delete, or a position delete that is
-- no Puffin file.
pub rewrite_entries-walk_entries :
    {W : Type 0} (lib : Formats) (source target : Storage W) (m : PrefixMapping) (mf : ManifestFile)
    (es es' : List Entry) (hits walked : List PathHit) (changed : Bool) (w w' v v' : W)
    → rewrite_entries lib source target m mf 0 es w ≡ (ok (es', hits, changed), w')
    → walk_entries lib source m mf 0 es v ≡ (ok walked, v')
    → (hits ≡ walked) × AllSupported es
rewrite_entries-walk_entries lib source target m mf es es' hits walked changed w w' v v' h k =
    let (live, all) = rewrite_entries-eq-ok m mf lib source target 0 es es' hits changed w w' h in
    let (dry, _) = walk_entries-eq-ok m mf lib source 0 es walked v v' k in (live ∙ sym dry, all)
