-- ===== src/Tests/Tables.antt =====
-- Whole tables.
use bergrebase.Base.{Bool, Bytes, Ensures, Keeps, codes, false, has_prefix, refl, true}
use bergrebase.Engine.{Engine, RewriteResult, rewrite_table}
use bergrebase.Engine.Writes.{Moved, rewrite_table_confined, rewrite_table_dry}
use bergrebase.Tests.Memory.{Objects, memory, Holds, memory-Reads, memory-WritesUnder}
use bergrebase.Tests.Toy.{old_to_new, toy_formats, toy_text}

abbrev engine : Bool → Engine Objects
engine dry = record {
  source = memory;
  target = memory;
  opts = record { mapping = old_to_new; current_snapshot_only = false; dry_run = dry };
  lib = toy_formats;
  text_format = toy_text;
}

abbrev metadata_uri : Bytes
metadata_uri = codes "s3://old/m"

rewrite_table_confined_example :
    Ensures
      (Holds (codes "s3://old/m") (codes "{ }"))
      (λ (out : RewriteResult). Moved old_to_new metadata_uri out.new_metadata_location)
      (rewrite_table (engine false) metadata_uri)
unfolding has_prefix
rewrite_table_confined_example =
    rewrite_table_confined (engine false) (memory-Reads (codes "s3://old/m") (codes "{ }"))
      (memory-Reads (codes "s3://old/m") (codes "{ }"))
      (memory-WritesUnder (codes "s3://old/m") (codes "{ }") (codes "s3://new/") refl) metadata_uri
      refl

rewrite_table_dry_example :
    Keeps (Holds (codes "s3://old/m") (codes "{ }")) (rewrite_table (engine true) metadata_uri)
rewrite_table_dry_example =
    rewrite_table_dry (engine true) (memory-Reads (codes "s3://old/m") (codes "{ }")) metadata_uri
      refl
