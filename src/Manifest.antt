-- ===== src/Manifest.antt =====
-- internal/rewrite/manifest.go and manifest_write.go: the entries of a manifest, walked and
-- rewritten.
pub mod Stats
pub mod Encode
pub mod Rewrite
pub mod Writes
pub mod Hits
pub mod Descriptor
pub mod ManifestList
use Prim.Native.Nat.{◌-◌}
use mathlib.Core.List.{map, reverse}
use bergrebase.Base.{
  Bool, Bytes, Error, List, Option, String, [], codes, decimal, false, if◌then◌else◌, int_eq, leb,
  length, list_eq, ltb, nat_eq, none, number, sentinel, some, suc, text, true, unsupported_feature,
  wrapf, zero, ℕ, ◌&&◌, ◌++◌, ◌+◌, ◌==◌, ◌∷◌,
}
use bergrebase.Prefix.{PrefixMapping, apply}
use bergrebase.Iceberg.{
  ManifestFile, DataFile, EntryContent, content_data, content_pos_deletes, content_eq_deletes,
  content_other,
}
use bergrebase.Metadata.{PathHit}

-- the letters A to Z as a to z
unfoldable pub to_lower : ℕ → ℕ
to_lower c = if leb 65 c && leb c 90 then c + 32 else c

-- The loop of `isPuffinPath`: `tail` and `ext` are compared byte by byte.
unfoldable pub same_folded : Bytes → Bytes → Bool
unfolding to_lower
same_folded [] ext = true
same_folded (c ∷ tail) [] = true
same_folded (c ∷ tail) (d ∷ ext) = if to_lower c == d then same_folded tail ext else false

unfoldable pub drop : ℕ → Bytes → Bytes
drop zero s = s
drop (suc n) [] = []
drop (suc n) (c ∷ s) = drop n s

abbrev pub puffin : Bytes
puffin = codes ".puffin"

-- `isPuffinPath`
unfoldable pub is_puffin_path : Bytes → Bool
unfolding same_folded drop
is_puffin_path uri =
    if ltb (length uri) (length puffin)
    then false
    else same_folded (drop (length uri - length puffin) uri) puffin

-- `manifest[%s].entries[%d].data_file.…`
abbrev pub entry_field : ManifestFile → ℕ → String → Bytes
entry_field mf i name =
    codes "manifest[" ++ (mf.path ++ (codes "].entries[" ++ (decimal i ++ codes name)))

-- The hit for `referenced_data_file`, where it is set and not empty.
unfoldable pub reference_hits : PrefixMapping → ManifestFile → ℕ → Option Bytes → List PathHit
reference_hits m mf i none = []
reference_hits m mf i (some ref) =
    if ref == []
    then []
    else record {
      field = entry_field mf i "].data_file.referenced_data_file";
      old = ref;
      new = apply m ref;
    }
      ∷ []

-- The hits that an entry contributes to the report, in `WalkManifest` and in `RewriteManifest`.
unfoldable pub entry_hits : PrefixMapping → ManifestFile → ℕ → DataFile → List PathHit
unfolding reference_hits
entry_hits m mf i df =
    record {
      field = entry_field mf i "].data_file.file_path";
      old = df.path;
      new = apply m df.path;
    }
    ∷ reference_hits m mf i df.referenced_data_file

-- the refusals of the switch on the content type
abbrev pub puffin_refusal : ManifestFile → ℕ → DataFile → Error
puffin_refusal mf i df =
    wrapf "%w: manifest %s entry %d points at Puffin file %s (V3 deletion vector)"
      (text mf.path ∷ number i ∷ text df.path ∷ []) (sentinel unsupported_feature)

abbrev pub content_refusal : ManifestFile → ℕ → Error
content_refusal mf i =
    wrapf "%w: manifest %s entry %d has content type %s" (text mf.path ∷ number i ∷ [])
      (sentinel unsupported_feature)
