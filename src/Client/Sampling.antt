-- ===== src/Client/Sampling.antt =====
-- mongo/client.rs with catalog/infer.rs: what the sampling of a collection gives.
use auger.Base.{ℕ, Text}
use auger.Base.Results.{Result}
use auger.Config.{MongoConfig, CatalogConfig}
use auger.Driver.{Driver}
use auger.Infer.Schema.{Floats}
use auger.Arrow.{Schema}
use auger.Client.{Numbers, sample_total, infer_schema}

-- The share of the sample that is taken from the newest documents.
abbrev newest : Numbers → CatalogConfig → ℕ
newest numbers c = numbers.share (sample_total c) c.recent_bias

module _ (driver : Driver) (cfg : MongoConfig) (numbers : Numbers) (floats : Floats) where
  abbrev Infer : Text → Text → CatalogConfig → Result Text Schema
  Infer = infer_schema driver cfg numbers floats
