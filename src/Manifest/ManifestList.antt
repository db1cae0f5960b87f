-- ===== src/Manifest/ManifestList.antt =====
-- internal/rewrite/manifest.go, `WalkManifestList` and `readManifestListHeader`, and
-- manifest_write.go, `RewriteManifestList`.
use Prim.Native.Nat.{◌*◌, ◌-◌, ◌^◌}
use bergrebase.Base.{
  Action, Bool, Bytes, Error, List, Option, Result, String, [], bind, codes, context, err, external,
  false, if◌then◌else◌, int_eq, leb, lift, list_eq, ltb, nat_eq, negsuc, none, ok, pos, pure, some,
  suc, text, true, wrap, zero, ℕ, ℤ, ◌&&◌, ◌+◌, ◌==◌, ◌>>=◌, ◌>>◌, ◌||◌, ◌∷◌,
}
use bergrebase.Prefix.{PrefixMapping, apply}
use bergrebase.Storage.{Storage, put_and_verify}
use bergrebase.Iceberg.{Iceberg, ManifestFile}
use bergrebase.Metadata.{PathHit, indexed}

-- `ManifestListHeader`
pub record ManifestListHeader : Type 0 where
  pub snapshot_id : ℤ
  pub parent_snapshot_id : Option ℤ
  pub sequence_number : Option ℤ
  pub first_row_id : ℤ

abbrev no_number : Error
no_number = external 0

-- the digits of a number behind those that make `n`
unfoldable pub read_digits : ℕ → Bytes → Result ℕ
read_digits n [] = ok n
read_digits n (c ∷ s) =
    if leb 48 c && leb c 57 then read_digits (n * 10 + (c - 48)) s else err no_number

unfoldable pub magnitude : Bytes → Result ℕ
unfolding read_digits
magnitude [] = err no_number
magnitude (c ∷ s) = read_digits 0 (c ∷ s)

unfoldable pub signed : Bool → ℕ → Result ℤ
signed false n = if ltb n (2 ^ 63) then ok (pos n) else err no_number
signed true zero = ok (pos 0)
signed true (suc n) = if ltb n (2 ^ 63) then ok (negsuc n) else err no_number

-- `strconv.ParseInt(s, 10, 64)` and `strconv.Atoi`
unfoldable pub parse_int : Bytes → Result ℤ
unfolding magnitude signed
parse_int [] = err no_number
parse_int (c ∷ s) =
    if c == 45
    then bind (magnitude s) (signed true)
    else if c == 43
    then bind (magnitude s) (signed false)
    else bind (magnitude (c ∷ s)) (signed false)

-- `string(meta[key])`
unfoldable pub meta_value : Bytes → List (Bytes × Bytes) → Bytes
meta_value key [] = []
meta_value key ((k, v) ∷ meta) = if k == key then v else meta_value key meta

-- `if v := string(meta[key]); v != "" && v != "null" { … }`
unfoldable pub header_number : String → String → List (Bytes × Bytes) → Result (Option ℤ)
unfolding parse_int meta_value
header_number format key meta =
    let v = meta_value (codes key) meta in
    if v == [] || v == codes "null"
    then ok none
    else bind (wrap format [] (parse_int v)) λ n. ok (some n)

-- the fields of the header once the container's metadata is read
unfoldable pub header_of : List (Bytes × Bytes) → Result (ManifestListHeader × ℤ)
unfolding header_number
header_of meta =
    bind
      (wrap "manifest-list format-version: %w" []
        (parse_int (meta_value (codes "format-version") meta)))
      λ version. bind (header_number "manifest-list snapshot-id: %w" "snapshot-id" meta) λ snapshot.
        bind (header_number "manifest-list parent-snapshot-id: %w" "parent-snapshot-id" meta)
          λ parent.
            bind (header_number "manifest-list sequence-number: %w" "sequence-number" meta)
              λ sequence.
                bind (header_number "manifest-list first-row-id: %w" "first-row-id" meta)
                  λ first_row. ok (
                    record {
                      snapshot_id = or_zero snapshot;
                      parent_snapshot_id = parent;
                      sequence_number = sequence;
                      first_row_id = or_zero first_row;
                    },
                    version,
                  )
  where
    or_zero : Option ℤ → ℤ
    or_zero none = pos 0
    or_zero (some n) = n

-- `manifest-list[%d].manifest_path`, from manifest `i` on
unfoldable pub list_hits : PrefixMapping → ℕ → List ManifestFile → List PathHit
list_hits m i [] = []
list_hits m i (mf ∷ rest) =
    record {
      field = indexed "manifest-list[" i "].manifest_path";
      old = mf.path;
      new = apply m mf.path;
    }
    ∷ list_hits m (suc i) rest

-- What `WalkManifestList` returns.
pub record WalkedList : Type 0 where
  pub hits : List PathHit
  pub files : List ManifestFile
  pub header : ManifestListHeader
  pub version : ℤ

-- `readManifestListHeader`
unfoldable pub read_manifest_list_header : Iceberg → Bytes → Result (ManifestListHeader × ℤ)
unfolding header_of
read_manifest_list_header ice raw = bind (ice.ocf_metadata raw) header_of

module _ (ice : Iceberg) {W : Type 0} (m : PrefixMapping) where
  -- `WalkManifestList`
  unfoldable pub walk_manifest_list : Storage W → Bytes → Action W WalkedList
  unfolding read_manifest_list_header list_hits
  walk_manifest_list source uri = do
    raw ← context "read manifest list %s: %w" (text uri ∷ []) (source.get_object uri)
    (header, version) ← lift (
        wrap "decode manifest list header %s: %w" (text uri ∷ [])
          (read_manifest_list_header ice raw))
    files ← lift (wrap "decode manifest list %s: %w" (text uri ∷ []) (ice.read_manifest_list raw))
    pure (record { hits = list_hits m 0 files; files = files; header = header; version = version })

  -- `RewriteManifestList`
  unfoldable pub rewrite_manifest_list :
      Storage W → Bytes → ℤ → ManifestListHeader → List ManifestFile → Action W Bytes
  rewrite_manifest_list target list_uri version header files = do
    body ← lift (
        wrap "encode manifest list %s -> %s: %w" (text list_uri ∷ text (apply m list_uri) ∷ []) (
          ice.write_manifest_list version header.snapshot_id header.parent_snapshot_id
            header.sequence_number header.first_row_id files))
    context "manifest list %s: %w" (text (apply m list_uri) ∷ [])
        (put_and_verify target (apply m list_uri) body)
    pure (apply m list_uri)
