-- ===== src/Metadata/Snapshots.antt =====
-- The snapshot that is validated, of the rewritten document, against the snapshots of the source
-- document that are rewritten.
use mathlib.Core.List.{Memᴰ, map}
use mathlib.Core.Option
use mathlib.Core.Option.{some-injective}
use bergrebase.Base.{
  Bool, Bool-cases, List, Option, Option-cases, [], ap, arith, false, inl, inr, int_beq_iff, int_eq,
  list_eq, nat_eq, none, refl, some, sym, true, ℤ, ◌==◌, ◌↔◌, ◌∙◌, ◌∷◌, ◌≡◌,
}
use bergrebase.Prefix.{PrefixMapping, apply}
use bergrebase.Metadata.{
  Metadata, Snapshot, find_snapshot, select_snapshots, last_snapshot, pick_snapshot,
  pick_validation_snapshot,
}

find_snapshot-mem :
    (want : ℤ) (ss : List Snapshot) (s : Snapshot)
    → find_snapshot want ss ≡ some s
    → Memᴰ s ss × (s.snapshot_id ≡ want)
unfolding find_snapshot
find_snapshot-mem want [] s h = absurd (cc)
find_snapshot-mem want (x ∷ ss) s h = elim (Bool-cases (x.snapshot_id == want)) [
  | inl e ↦
      let same : x ≡ s = cc (rw e at h) in
      rw (← same) (Memᴰ.head refl, (int_beq_iff x.snapshot_id want).0 e)
  | inr e ↦ let (m, q) = find_snapshot-mem want ss s (rw e at h) in (Memᴰ.tail m, q)
]

last_snapshot-mem : (s : Snapshot) (ss : List Snapshot) → Memᴰ (last_snapshot s ss) (s ∷ ss)
unfolding last_snapshot
last_snapshot-mem s [] = Memᴰ.head refl
last_snapshot-mem s (x ∷ ss) = Memᴰ.tail (last_snapshot-mem x ss)

-- There is no snapshot to validate exactly if there is none at all.
pub pick_snapshot-eq-none :
    (current : Option ℤ) (ss : List Snapshot) → (pick_snapshot current ss ≡ none) ↔ (ss ≡ [])
unfolding pick_snapshot
pick_snapshot-eq-none current [] = (λ _. refl, λ _. refl)
pick_snapshot-eq-none none (s ∷ ss) = (λ h. cc, λ h. cc)
pick_snapshot-eq-none (some want) (s ∷ ss) = ground arith

pick_snapshot-mem :
    (current : Option ℤ) (ss : List Snapshot) (s : Snapshot)
    → pick_snapshot current ss ≡ some s
    → Memᴰ s ss
unfolding pick_snapshot
pick_snapshot-mem current [] s h = absurd (cc)
pick_snapshot-mem none (x ∷ ss) s h =
    let same : last_snapshot x ss ≡ s = cc in rw (← same) (last_snapshot-mem x ss)
pick_snapshot-mem (some want) (x ∷ ss) s h = elim (Option-cases (find_snapshot want (x ∷ ss))) [
  | inl e ↦
      let same : last_snapshot x ss ≡ s = cc (rw (e, pick_snapshot) at h) in
      rw (← same) (last_snapshot-mem x ss)
  | inr (f, e) ↦
      let same : f ≡ s = cc (rw (e, pick_snapshot) at h) in
      (find_snapshot-mem want (x ∷ ss) s (e ∙ ap some same)).0
]

pick_snapshot_found :
    (want : ℤ) (ss : List Snapshot) (s : Snapshot)
    → find_snapshot want ss ≡ some s
    → pick_snapshot (some want) ss ≡ some s
unfolding pick_snapshot
pick_snapshot_found want [] s h = absurd (unfold find_snapshot in cc h)
pick_snapshot_found want (x ∷ ss) s h = rw (h, pick_snapshot) refl

pick_validation_snapshot-mem :
    (meta : Metadata) (current_only : Bool) (s : Snapshot)
    → pick_validation_snapshot meta ≡ some s
    → Memᴰ s (select_snapshots meta current_only)
unfolding pick_validation_snapshot select_snapshots
pick_validation_snapshot-mem meta false s h =
    pick_snapshot-mem meta.current_snapshot_id meta.snapshots s h
pick_validation_snapshot-mem meta true s h =
    let all = pick_snapshot-mem meta.current_snapshot_id meta.snapshots s h in
    elim (Option-cases meta.current_snapshot_id) [
      | inl e ↦ rw (e, select_snapshots) all
      | inr (want, e) ↦ elim (Option-cases (find_snapshot want meta.snapshots)) [
        | inl f ↦ rw (e, select_snapshots) (rw (f, select_snapshots) all)
        | inr (x, f) ↦
            let found = pick_snapshot_found want meta.snapshots x f in
            let same : s ≡ x = cc (found, rw e at h) in
            rw (e, select_snapshots) (rw (f, select_snapshots) (Memᴰ.head same))
      ]
    ]

-- The snapshot with its paths under the new prefix.
abbrev pub moved_snapshot : PrefixMapping → Snapshot → Snapshot
moved_snapshot m s = record {
  snapshot_id = s.snapshot_id;
  manifest_list = apply m s.manifest_list;
  manifests = map (apply m) s.manifests;
}

module _ (m : PrefixMapping) where
  find_snapshot-moved :
      (want : ℤ) (ss : List Snapshot)
      → find_snapshot want (map (moved_snapshot m) ss)
        ≡ Option.map (moved_snapshot m) (find_snapshot want ss)
  unfolding find_snapshot
  find_snapshot-moved want [] = refl
  find_snapshot-moved want (x ∷ ss) = elim (Bool-cases (x.snapshot_id == want)) [
    | inl e ↦ rw e refl
    | inr e ↦ rw e (find_snapshot-moved want ss)
  ]

  last_snapshot-moved :
      (s : Snapshot) (ss : List Snapshot)
      → last_snapshot (moved_snapshot m s) (map (moved_snapshot m) ss)
        ≡ moved_snapshot m (last_snapshot s ss)
  unfolding last_snapshot
  last_snapshot-moved s [] = refl
  last_snapshot-moved s (x ∷ ss) = last_snapshot-moved x ss

  pick_snapshot-moved :
      (current : Option ℤ) (ss : List Snapshot)
      → pick_snapshot current (map (moved_snapshot m) ss)
        ≡ Option.map (moved_snapshot m) (pick_snapshot current ss)
  unfolding pick_snapshot
  pick_snapshot-moved current [] = refl
  pick_snapshot-moved none (x ∷ ss) = ap some (last_snapshot-moved x ss)
  pick_snapshot-moved (some want) (x ∷ ss) =
      let found = find_snapshot-moved want (x ∷ ss) in
      elim (Option-cases (find_snapshot want (x ∷ ss))) [
        | inl e ↦ rw (found, e, pick_snapshot) (ap some (last_snapshot-moved x ss))
        | inr (f, e) ↦ rw (found, e, pick_snapshot) refl
      ]

  -- The document that is validated has the current snapshot of the one that is rewritten, and its
  -- snapshots in their order, each with its id and with its paths under the new prefix. Then the
  -- snapshot that is validated is the moved one of a snapshot that was rewritten, with
  -- --current-snapshot-only or without.
  pub pick_validation_snapshot-moved :
      (before after : Metadata) (current_only : Bool) (s' : Snapshot)
      → after.current_snapshot_id ≡ before.current_snapshot_id
      → after.snapshots ≡ map (moved_snapshot m) before.snapshots
      → pick_validation_snapshot after ≡ some s'
      → (s : Snapshot) × Memᴰ s (select_snapshots before current_only) × (s' ≡ moved_snapshot m s)
  unfolding pick_validation_snapshot
  pick_validation_snapshot-moved before after current_only s' same moved h =
      elim (Option-cases (pick_snapshot before.current_snapshot_id before.snapshots)) [
        | inl e ↦ absurd (cc (there ∙ ap (Option.map (moved_snapshot m)) e))
        | inr (s, e) ↦ (
          s,
          pick_validation_snapshot-mem before current_only s e,
          some-injective s' (moved_snapshot m s) (there ∙ ap (Option.map (moved_snapshot m)) e),
        )
      ]
    where
      there :
          some s'
          ≡ Option.map
              (moved_snapshot m)
              (pick_snapshot before.current_snapshot_id before.snapshots)
      there =
          sym h ∙ rw (same, moved) (pick_snapshot-moved before.current_snapshot_id before.snapshots)
