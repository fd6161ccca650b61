-- ===== src/Config.antt =====
-- config.rs, and the merge with the command line in main.rs. Paths are texts, and a 64-bit float is its
-- bit pattern.
mod Tests
use auger.Base.{
  ℕ, min, max, Bool, true, false, ◌||◌, List, [], ◌∷◌, ◌++◌, map, Option, none, some, Text, codes,
  if◌then◌else◌, ◌==◌, ltb, text_eq, ascii_lower, any,
}
use auger.Base.Int.{ℤ, pos}
use auger.Base.Results.{Result, ok, err, ◌>>=◌, map_err}
use auger.Whitespace.{trim}

pub data AuthMode : Type 0 where
  trust md5 scram : AuthMode

pub record ServerConfig : Type 0 where
  pub listen : Text
  pub http_listen : Option Text
  pub http_query : Bool
  pub auth : AuthMode
  pub users : List (Text × Text)
  pub batch_size : ℕ
  pub statement_timeout_secs : ℕ

pub record MongoConfig : Type 0 where
  pub uri : Text
  pub databases : List Text
  pub exclude_collections : List Text
  pub connect_timeout_secs : ℕ
  pub server_timeout_secs : ℕ
  pub cursor_batch_size : ℕ
  pub allow_disk_use : Bool

pub record ColumnOverride : Type 0 where
  pub path : Text
  pub sql_type : Text
  pub nullable : Bool

pub record CatalogConfig : Type 0 where
  pub sample_size : ℤ
  pub recent_bias : ℕ
  pub max_depth : ℕ
  pub rare_field_threshold : ℕ
  pub cache_path : Option Text
  pub refresh_interval_secs : ℕ
  pub overrides : List (Text × List ColumnOverride)

pub record PushdownConfig : Type 0 where
  pub filters : Bool
  pub aggregates : Bool
  pub sorts : Bool
  pub limits : Bool
  pub scan_parallelism : ℕ
  pub parallel_scan_min_docs : ℕ
  pub explain_pipeline : Bool

pub record Config : Type 0 where
  pub server : ServerConfig
  pub mongo : MongoConfig
  pub catalog : CatalogConfig
  pub pushdown : PushdownConfig

abbrev pub default_server : ServerConfig
default_server = record {
  listen = codes "127.0.0.1:5433";
  http_listen = none;
  http_query = false;
  auth = AuthMode.trust;
  users = [];
  batch_size = 8192;
  statement_timeout_secs = 0;
}

abbrev pub default_mongo : MongoConfig
default_mongo = record {
  uri = codes "mongodb://localhost:27017";
  databases = [];
  exclude_collections = [];
  connect_timeout_secs = 10;
  server_timeout_secs = 0;
  cursor_batch_size = 4096;
  allow_disk_use = true;
}

-- 0.25 and 0.01
abbrev pub default_catalog : CatalogConfig
default_catalog = record {
  sample_size = pos 1000;
  recent_bias = 4598175219545276416;
  max_depth = 4;
  rare_field_threshold = 4576918229304087675;
  cache_path = none;
  refresh_interval_secs = 3600;
  overrides = [];
}

abbrev pub default_pushdown : PushdownConfig
default_pushdown = record {
  filters = true;
  aggregates = true;
  sorts = true;
  limits = true;
  scan_parallelism = 0;
  parallel_scan_min_docs = 100000;
  explain_pipeline = true;
}

abbrev pub default_config : Config
default_config = record {
  server = default_server;
  mongo = default_mongo;
  catalog = default_catalog;
  pushdown = default_pushdown;
}

-- `available` is what the machine reports, where it does.
unfoldable pub effective_parallelism : PushdownConfig → Option ℕ → ℕ → ℕ
effective_parallelism config available doc_count =
    if ltb doc_count config.parallel_scan_min_docs
    then 1
    else if config.scan_parallelism == 0
    then elim available [ none ↦ 1 | some n ↦ min n 8 ]
    else max config.scan_parallelism 1

-- The file system and the crate `toml`, whose errors are texts.
pub record Files : Type 0 where
  pub read_to_string : Text → Result Text Text
  pub from_str : Text → Result Text Config

-- `matches!(…, "1" | "true" | "yes" | "on")`, in lower case.
unfoldable pub is_truthy : Text → Bool
is_truthy s =
    any (text_eq (map ascii_lower (trim s)))
      (codes "1" ∷ codes "true" ∷ codes "yes" ∷ codes "on" ∷ [])

-- The arguments that end up in the configuration.
pub record Cli : Type 0 where
  pub config : Option Text
  pub mongo_uri : Option Text
  pub listen : Option Text
  pub http_listen : Option Text
  pub http_query : Option Text
  pub sample_size : Option ℤ
  pub catalog_cache : Option Text

-- `if let Some(x) = option { place = x }`
abbrev pub or_keep : {A : Type 0} → Option A → A → A
or_keep none a = a
or_keep (some x) a = x

abbrev pub or_keep_some : {A : Type 0} → Option A → Option A → Option A
or_keep_some none a = a
or_keep_some (some x) a = some x

abbrev pub or_keep_truthy : Option Text → Bool → Bool
or_keep_truthy none b = b
or_keep_truthy (some q) b = is_truthy q

-- The assignments of `build_config`.
unfoldable pub override : Cli → Config → Config
unfolding is_truthy
override cli c = record {
  server = record {
    listen = or_keep cli.listen c.server.listen;
    http_listen = or_keep_some cli.http_listen c.server.http_listen;
    http_query = or_keep_truthy cli.http_query c.server.http_query;
    auth = c.server.auth;
    users = c.server.users;
    batch_size = c.server.batch_size;
    statement_timeout_secs = c.server.statement_timeout_secs;
  };
  mongo = record {
    uri = or_keep cli.mongo_uri c.mongo.uri;
    databases = c.mongo.databases;
    exclude_collections = c.mongo.exclude_collections;
    connect_timeout_secs = c.mongo.connect_timeout_secs;
    server_timeout_secs = c.mongo.server_timeout_secs;
    cursor_batch_size = c.mongo.cursor_batch_size;
    allow_disk_use = c.mongo.allow_disk_use;
  };
  catalog = record {
    sample_size = or_keep cli.sample_size c.catalog.sample_size;
    recent_bias = c.catalog.recent_bias;
    max_depth = c.catalog.max_depth;
    rare_field_threshold = c.catalog.rare_field_threshold;
    cache_path = or_keep_some cli.catalog_cache c.catalog.cache_path;
    refresh_interval_secs = c.catalog.refresh_interval_secs;
    overrides = c.catalog.overrides;
  };
  pushdown = c.pushdown;
}

module _ (files : Files) where
  open files use {read_to_string, from_str}

  abbrev pub reading : Text → Text → Text
  reading p e = codes "reading config " ++ (p ++ (codes ": " ++ e))

  unfoldable pub load : Option Text → Result Text Config
  load none = ok default_config
  load (some p) = map_err (reading p) (read_to_string p) >>= λ raw. from_str raw

  unfoldable pub build_config : Cli → Result Text Config
  unfolding load override
  build_config cli = load cli.config >>= λ c. ok (override cli c)
