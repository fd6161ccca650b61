-- ===== src/Lib.antt =====
-- auger answers SQL over MongoDB: a client's query comes in over the PostgreSQL wire protocol, DataFusion
-- plans it against schemas that are inferred from sampled documents, and scans run as aggregation
-- pipelines on the server.
--
-- Parts of the program and the modules that model them:
--   Pushdown   src/mongo/pushdown.rs: which filter document stands for a predicate, and when it is exact.
--              `translate` is `translate`, one clause for each arm; Column has `resolve_column`, Literal
--              `scalar_to_bson`, Like `like_to_regex`. Engines says what is assumed of the server's
--              matching and of DataFusion's evaluation; Toy is an instance of the assumptions.
--   Pipeline   src/mongo/pipeline.rs: the stages of a scan, the projection document and the `_id` ranges
--              that split a scan between readers.
--   Infer      src/catalog/infer.rs: Tag has the tags that name the BSON type of a column, Shape has shapes
--              and `unify`, Observe the sampler, Schema the Arrow schema of a sample (`finish`).
--   Store      src/catalog/store.rs: Types has the stored form of Arrow types, Store itself the maps of
--              tables, `persist`, `load_from`, `put`, `get_fresh` and `known_tables`.
--   Config     src/config.rs: the configuration and its defaults, with `build_config` of src/main.rs.
--   Client     src/mongo/client.rs: `databases`, `collections`, `infer_schema`, `stats`, `sample_ids` and
--              `redact`. Driver has what is asked of the crate `mongodb`, and Toy an instance.
--   Catalog    src/catalog/provider.rs: `MongoCatalog` as a state, `schema`, `register_schema`, `refresh`
--              and `table`, whose second half is `entry_of`.
--   Exec       src/mongo/exec.rs: `execute` as the list of what its stream yields, of a cursor as the list
--              of its events; `poll` is one round of the stream. Statistics and `fmt_as` are there too.
--   Http       src/http/mod.rs: the query console (`gate`, `query`), and in Pages and Table the pages.
--   Provider   src/mongo/provider.rs: `supports_filters_pushdown` and `scan`, with `project_schema` of
--              src/mongo/convert.rs.
--   Convert    src/mongo/convert.rs: `lookup_path` and `base64_min::encode`; Scalars has the coercions of
--              one value, Columns `build_array` and `documents_to_batch`.
--   Server     src/server/mod.rs (Split: `split_statements`; Handler: `run`, `do_query`, `describe`,
--              `to_row_stream`, `get_password`, `do_describe_portal`), src/server/encode.rs (Encode: `pg_type_of`, `quote_json`,
--              `hex`; Values: `value_to_json`, `encode_batch`), and src/server/compat.rs (Compat: `intercept`, `rewrite_show`,
--              `qualify_bare_pg_catalog`, `strip_pg_catalog_prefix`, `fnv_oid`).
--   Bson, Arrow, Errors  the data that the parts hand to one another: BSON values, Arrow fields and arrays,
--              and the errors of DataFusion.
--   Base, Decimal, Whitespace  tests, lists, texts, integers and results that all the parts share.
--
-- How they interact: Infer writes the metadata of a field, Pushdown reads it to build literals of the
-- stored type, Store keeps what Infer gives, Pipeline puts the filters of Pushdown into the `$match`
-- stage of a scan, Exec runs the scan and has Convert turn its documents into columns, Catalog resolves a
-- table through Store and Client, Http shows what they hold, and Server cuts messages into statements before and renders values after.
--
-- Texts are lists of code points. Floats are bit patterns, and what computes with them is a parameter
-- (`Libs` of Pushdown/Literal, `Floats` of Infer/Schema, `Values` of Convert/Scalars). Maps are lists of entries. `unify` runs on fuel,
-- the number of nodes of its two sides, which is enough since each recursive call is on fewer. The stream
-- of a cursor runs on one round more than there are events, since each batch takes one. The other
-- loops are structural; an index out of range, where the source panics, is an empty result. Where the
-- crate `arrow` panics on an array, the result is the value `panicked` of Errors, and what its
-- constructors check is a parameter (`Checks` of Arrow/Array).
--
-- Not modelled: the MongoDB driver, DataFusion, Arrow, axum and pgwire, whose documented behaviour stands
-- as hypotheses; the network, the file system and logging; of src/main.rs the start-up; of src/server/mod.rs
-- the sockets; what src/server/compat.rs registers with DataFusion. Locks
-- are taken to be unpoisoned, and LIKE patterns are translated but not compared with the server's
-- regular expressions.
pub mod Base
pub mod Whitespace
pub mod Decimal
pub mod Errors
pub mod Config
pub mod Bson
pub mod Driver
pub mod Arrow
pub mod Pipeline
pub mod Infer
pub mod Pushdown
pub mod Store
pub mod Convert
pub mod Client
pub mod Catalog
pub mod Exec
pub mod Provider
pub mod Http
pub mod Server
