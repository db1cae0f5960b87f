-- ===== src/Manifest/Encode.antt =====
-- internal/rewrite/manifest_write.go: encoding the new manifest, and its descriptor.
use bergrebase.Base.{
  Bytes, List, Result, [], ap, arith, bind, bind-eq-ok, length, length-append, ok, ok-injective,
  pos, refl, sym, ℕ, ◌++◌, ◌+◌, ◌∙◌, ◌∷◌, ◌≡◌,
}
use bergrebase.Iceberg.{Iceberg, ManifestFile, ManifestContent, Entry}

-- `lengthCountingWriter` over a `bytes.Buffer`: the count, and what was written.
pub record CountingWriter : Type 0 where
  pub n : ℕ
  pub buffer : Bytes

abbrev pub empty_writer : CountingWriter
empty_writer = record { n = 0; buffer = [] }

-- `lengthCountingWriter.Write`
unfoldable pub write : CountingWriter → Bytes → CountingWriter
write cw p = record { n = cw.n + length p; buffer = cw.buffer ++ p }

-- The count is the number of bytes that were written.
abbrev pub Counts : CountingWriter → Type 0
Counts cw = cw.n ≡ length cw.buffer

pub write-Counts : (cw : CountingWriter) (p : Bytes) → Counts cw → Counts (write cw p)
unfolding write
write-Counts cw p h = omega (arith, length-append cw.buffer p)

module _ (ice : Iceberg) where
  open ice use {
    Reader, Writer, TableSchema, PartitionSpec, new_manifest_writer, add, close, to_manifest_file,
    new_manifest_file,
  }

  -- `for _, entry := range entries { w.Add(entry) }`
  unfoldable pub add_entries :
      Writer × CountingWriter → List Entry → Result (Writer × CountingWriter)
  unfolding write
  add_entries w [] = ok w
  add_entries (w, cw) (e ∷ rest) = bind (add w e) λ (w', p). add_entries (w', write cw p) rest

  -- From `NewManifestWriter` to `ToManifestFile`: the descriptor and the encoded bytes.
  unfoldable pub encode_manifest :
      ManifestFile
      → PartitionSpec
      → TableSchema
      → Bytes
      → List Entry
      → Result (ManifestFile × Bytes)
  unfolding add_entries
  encode_manifest mf spec schema new_uri entries =
      bind (new_manifest_writer mf.version spec schema mf.snapshot_id mf.content) λ (w, p).
        bind (add_entries (w, write empty_writer p) entries) λ (w', cw).
          bind (close w') λ (closed, q).
            let cw' = write cw q in
            bind (to_manifest_file closed new_uri (pos cw'.n) mf.content)
              λ new_mf. ok (new_mf, cw'.buffer)

  -- `preserveSequenceNumbers`
  unfoldable pub preserve_sequence_numbers : ManifestFile → ManifestFile → ManifestFile
  preserve_sequence_numbers new_mf original =
      let b =
        new_manifest_file new_mf.version new_mf.path new_mf.size new_mf.partition_spec_id
          new_mf.snapshot_id in
      record b {
        sequence_num = original.sequence_num;
        min_sequence_num = original.min_sequence_num;
        content = original.content;
        added_data_files = new_mf.added_data_files;
        added_rows = new_mf.added_rows;
        existing_data_files = new_mf.existing_data_files;
        existing_rows = new_mf.existing_rows;
        deleted_data_files = new_mf.deleted_data_files;
        deleted_rows = new_mf.deleted_rows;
        key_metadata = new_mf.key_metadata;
        partitions = elim new_mf.partitions [ [] ↦ b.partitions | p ∷ ps ↦ p ∷ ps ];
      }

  add_entries-Counts :
      (w w' : Writer) (cw cw' : CountingWriter) (entries : List Entry)
      → Counts cw
      → add_entries (w, cw) entries ≡ ok (w', cw')
      → Counts cw'
  unfolding add_entries
  add_entries-Counts w w' cw cw' [] c h =
      rw (ap (λ (p : Writer × CountingWriter). p.1) (ok-injective h)) at c
  add_entries-Counts w w' cw cw' (e ∷ rest) c h =
      let ((w'', p), _, h') = bind-eq-ok (add w e) _ h in
      add_entries-Counts w'' w' (write cw p) cw' rest (write-Counts cw p c) h'

  described :
      (w : Writer) (uri : Bytes) (c : ManifestContent) (made new_mf : ManifestFile)
      (cw : CountingWriter) (body : Bytes)
      → Counts cw
      → to_manifest_file w uri (pos cw.n) c ≡ ok made
      → ◌≡◌ {A = Result (ManifestFile × Bytes)} (ok (made, cw.buffer)) (ok (new_mf, body))
      → to_manifest_file w uri (pos (length body)) c ≡ ok new_mf
  described w uri c made new_mf cw body counted e h =
      let same = ok-injective h in
      let body_is : cw.buffer ≡ body = ap (λ (p : ManifestFile × Bytes). p.1) same in
      let made_is : made ≡ new_mf = ap (λ (p : ManifestFile × Bytes). p.0) same in
      ap (λ b. to_manifest_file w uri (pos (length b)) c) (sym body_is)
      ∙ ap (λ n. to_manifest_file w uri (pos n) c) (sym counted)
      ∙ e
      ∙ ap ok made_is

  -- The length that the descriptor is made with is the length of the encoded bytes.
  pub encode_manifest-length :
      (mf : ManifestFile) (spec : PartitionSpec) (schema : TableSchema) (new_uri : Bytes)
      (entries : List Entry) (new_mf : ManifestFile) (body : Bytes)
      → encode_manifest mf spec schema new_uri entries ≡ ok (new_mf, body)
      → (w : Writer) × (to_manifest_file w new_uri (pos (length body)) mf.content ≡ ok new_mf)
  unfolding encode_manifest
  encode_manifest-length mf spec schema new_uri entries new_mf body h =
      let ((w, p), _, h₁) =
        bind-eq-ok (new_manifest_writer mf.version spec schema mf.snapshot_id mf.content) _ h in
      let ((w', cw), added, h₂) = bind-eq-ok (add_entries (w, write empty_writer p) entries) _ h₁ in
      let ((closed, q), _, h₃) = bind-eq-ok (close w') _ h₂ in
      let (made, e, h₄) =
        bind-eq-ok (to_manifest_file closed new_uri (pos (write cw q).n) mf.content) _ h₃ in
      let counted : Counts (write cw q) = write-Counts cw q (
        add_entries-Counts w w' (write empty_writer p) cw entries (write-Counts empty_writer p refl)
          added) in
      (closed, described closed new_uri mf.content made new_mf (write cw q) body counted e h₄)
