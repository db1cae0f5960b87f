-- ===== src/Manifest/Stats.antt =====
-- internal/rewrite/manifest_write.go: the statistics of position-delete entries.
use bergrebase.Base.{
  Bool, Bytes, List, Option, [], ap, arith, false, if◌then◌else◌, int_beq_iff, int_eq, is_negative,
  list_beq_iff, list_eq, nat_eq, none, not, refl, some, true, ℕ, ℤ, ◌==◌, ◌||◌, ◌∷◌, ◌≡◌,
}
use bergrebase.Prefix.{PrefixMapping, apply}
use bergrebase.Iceberg.{DataFile}
use bergrebase.PositionDelete.{PositionDeleteRewrite}

-- `reservedFieldIDFilePath`
abbrev pub reserved_field_id_file_path : ℕ
reserved_field_id_file_path = 2147483546

module _ (m : PrefixMapping) (field_id : ℕ) where
  -- the loop over the bounds of one side
  unfoldable pub rewrite_bounds : List (ℕ × Bytes) → List (ℕ × Bytes) × Bool
  rewrite_bounds [] = ([], false)
  rewrite_bounds ((key, value) ∷ rest) =
      let (rest', later) = rewrite_bounds rest in
      if key == field_id
      then ((key, apply m value) ∷ rest', not (apply m value == value) || later)
      else ((key, value) ∷ rest', later)

  unfoldable pub rewrite_side : Option (List (ℕ × Bytes)) → Option (List (ℕ × Bytes)) × Bool
  unfolding rewrite_bounds
  rewrite_side none = (none, false)
  rewrite_side (some bounds) =
      let (bounds', changed) = rewrite_bounds bounds in (some bounds', changed)

-- `rewriteDataFileBoundsForField`
unfoldable pub rewrite_data_file_bounds : PrefixMapping → ℕ → DataFile → DataFile × Bool
unfolding rewrite_side
rewrite_data_file_bounds m field_id df =
    let (lower, c) = rewrite_side m field_id df.lower_bounds in
    let (upper, d) = rewrite_side m field_id df.upper_bounds in
    (record df { lower_bounds = lower; upper_bounds = upper }, c || d)

abbrev pub is_set {ℓ} : {A : Type ℓ} → Option A → Bool
is_set none = false
is_set (some _) = true

-- the part of `fixupPositionDeleteEntryStats` for a file that was in scope
unfoldable pub align_stats : PrefixMapping → DataFile → ℤ → DataFile × Bool
unfolding rewrite_data_file_bounds
align_stats m df new_size =
    let (df', changed) = rewrite_data_file_bounds m reserved_field_id_file_path df in
    (
      record df' { file_size = new_size; splits = none; col_sizes = none },
      changed || (not (df.file_size == new_size) || (is_set df.splits || is_set df.col_sizes)),
    )

-- `fixupPositionDeleteEntryStats`
unfoldable pub fixup_entry_stats :
    PrefixMapping → DataFile → PositionDeleteRewrite → DataFile × Bool
unfolding align_stats
fixup_entry_stats m df pd =
    if is_negative pd.new_size then (df, false) else align_stats m df pd.new_size

-- The values of all bounds of the fields other than `field_id`.
abbrev pub other_bounds : ℕ → List (ℕ × Bytes) → List (ℕ × Bytes)
other_bounds field_id [] = []
other_bounds field_id ((key, value) ∷ rest) =
    let rest' = other_bounds field_id rest in
    if key == field_id then rest' else (key, value) ∷ rest'

-- Bounds of other columns are never touched, also where their bytes begin with the source prefix.
pub other_bounds-rewrite_bounds :
    (m : PrefixMapping) (field_id : ℕ) (bounds : List (ℕ × Bytes))
    → other_bounds field_id (rewrite_bounds m field_id bounds).0 ≡ other_bounds field_id bounds
unfolding rewrite_bounds
other_bounds-rewrite_bounds m field_id [] = refl
other_bounds-rewrite_bounds m field_id ((key, value) ∷ rest) =
    ground (arith, other_bounds-rewrite_bounds m field_id rest)

bounds_unchanged :
    (m : PrefixMapping) (field_id : ℕ) (bounds : List (ℕ × Bytes))
    → (rewrite_bounds m field_id bounds).1 ≡ false
    → (rewrite_bounds m field_id bounds).0 ≡ bounds
unfolding rewrite_bounds
bounds_unchanged m field_id [] h = refl
bounds_unchanged m field_id ((key, value) ∷ rest) h =
    ground (arith, bounds_unchanged m field_id rest, list_beq_iff (apply m value) value)

side_unchanged :
    (m : PrefixMapping) (field_id : ℕ) (side : Option (List (ℕ × Bytes)))
    → (rewrite_side m field_id side).1 ≡ false
    → (rewrite_side m field_id side).0 ≡ side
unfolding rewrite_side
side_unchanged m field_id none h = refl
side_unchanged m field_id (some bounds) h = ap some (bounds_unchanged m field_id bounds h)

-- Where the alignment of an entry's statistics reports no change, the entry is as it was.
pub fixup_entry_stats_unchanged :
    (m : PrefixMapping) (df : DataFile) (pd : PositionDeleteRewrite)
    → (fixup_entry_stats m df pd).1 ≡ false
    → (fixup_entry_stats m df pd).0 ≡ df
unfolding fixup_entry_stats
fixup_entry_stats_unchanged m df pd h = ground (
  arith,
  side_unchanged m reserved_field_id_file_path df.lower_bounds,
  side_unchanged m reserved_field_id_file_path df.upper_bounds,
  int_beq_iff df.file_size pd.new_size,
)
