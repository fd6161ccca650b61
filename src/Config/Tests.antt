-- ===== src/Config/Tests.antt =====
-- Examples for config.rs and main.rs.
use auger.Base.{true, none, some, ◌≡◌, refl, codes, text_eq, ascii_lower}
use auger.Whitespace.{trim}
use auger.Base.Results.{ok, err}
use auger.Config.{Cli, Files, default_config, build_config, is_truthy}

abbrev files : Files
files = record { read_to_string = λ p. err (codes "missing"); from_str = λ t. ok default_config }

abbrev no_arguments : Cli
no_arguments = record {
  config = none;
  mongo_uri = none;
  listen = none;
  http_listen = none;
  http_query = none;
  sample_size = none;
  catalog_cache = none;
}

nothing-build_config : build_config files no_arguments ≡ ok default_config
unfolding build_config
nothing-build_config = refl

missing-build_config :
    build_config files (record no_arguments { config = some (codes "a.toml") })
    ≡ err (codes "reading config a.toml: missing")
unfolding build_config
missing-build_config = refl

on-is_truthy : is_truthy (codes " ON ") ≡ true
unfolding is_truthy text_eq trim ascii_lower
on-is_truthy = refl
