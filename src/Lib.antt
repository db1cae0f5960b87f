-- ===== src/Lib.antt =====
-- bergrebase moves an Iceberg table to new object storage: after a byte copy it rewrites the
-- absolute URIs in the table's metadata and then points the catalog at the rewritten document.
--
-- Parts, and the files that model them:
--
--   - Base and its children: tests, integers, lists, Go strings as lists of bytes, Go errors as
--     values, and calls on an abstract world (`Action`) with the rules by which they keep a property
--     of that world (`Ensures`, `Keeps`).
--   - Prefix: internal/rewrite/prefix.go (`PrefixMapping.Apply`, `Matches`).
--   - Storage: the `Storage` interface of internal/rewrite/walker.go, and `putAndVerify` of put.go.
--   - S3: internal/storage/s3.go, over the calls of the SDK as a parameter.
--   - Json: what encoding/json makes of a document when it is read into `map[string]any`.
--   - Metadata: internal/rewrite/metadata_json.go and metadata.go; Metadata.Edit and
--     Metadata.Rewrite: metadata_write.go.
--   - PositionDelete: internal/rewrite/positiondelete.go, over arrow-go as a parameter.
--   - Iceberg: iceberg-go as a parameter; Manifest and its children: internal/rewrite/manifest.go
--     and manifest_write.go.
--   - Engine: internal/rewrite/walker.go (`Engine.RewriteTable`).
--   - Catalog: internal/catalog/catalog.go, and in Catalog.Contract what it asks of a catalog
--     (`Contract`) and what is left of that where a rollback may fail (`BestEffort`, on which
--     Cli.Migrate.Outcome stands); Rest: internal/catalog/rest/rest.go, over HTTP as a parameter;
--     Rest.Implementation and Rest.Rollback: the client as such a catalog.
--   - Cli: cmd/bergrb/main.go (Cli.Namespaces: `selectBatches`, `listAllNamespaces`; Cli.Migrate:
--     `migrateOne`, and internal/rewrite/validate.go; Cli.Run: `run`, over any storages and catalog;
--     Cli.Clients: the S3 clients and the REST client that it makes, and the world that holds them;
--     Cli.Main: `parseFlags` over the package flag as a parameter, `run` with its clients, and
--     `realMain`).
--   - Tests: the theorems at concrete inputs, with a storage in memory and stand-in codecs.
--
-- A Go function that takes storage or catalog handles is an `Action`: it takes the world and gives
-- a result or an error, and the world afterwards. Reads and writes of the source and of the target
-- act on one world, so that the two may be the same bucket. The engine reads manifest lists, then
-- manifests, then position-delete bodies; it writes bottom-up and the metadata document last; the
-- command line then asks the catalog to swap the pointer.
--
-- Bounds: `listAllNamespaces` takes a number of rounds and gives `none` when they run out; a round
-- takes one namespace off the queue, so that there are enough rounds if there are as many as
-- namespaces are put on the queue, which Cli.Namespaces.Walk counts by `weight`. `%d` prints with as
-- many rounds as the number, and rounding to a `float64` shifts by at most 64, which covers 64-bit
-- numbers. `int64` sums are written with their wrap-around.
--
-- Not modelled: logging; the text of error messages (a message is its format with its arguments);
-- the result that `RewriteTable` returns beside an error; cancellation by the context, except for
-- the split between the caller's context and the detached one of a swap; reading Avro, Parquet and
-- JSON text, which are parameters; the package flag, also a parameter; signals; the test harness.
pub mod Base
pub mod Prefix
pub mod Storage
pub mod S3
pub mod Json
pub mod Metadata
pub mod PositionDelete
pub mod Iceberg
pub mod Manifest
pub mod Engine
pub mod Catalog
pub mod Rest
pub mod Cli
pub mod Tests
