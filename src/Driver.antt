-- ===== src/Driver.antt =====
-- The crate `mongodb`, as the gateway calls it: what it answers is a parameter, and its errors are texts.
-- A cursor is what it yields, in order.
use auger.Base.{ℕ, Bool, List, Option, Text}
use auger.Base.Results.{Result}
use auger.Bson.{Document}

-- One event of a cursor.
pub data Event : Type 0 where
  received : Document → Event
  failed : Text → Event

-- An aggregation and its options, those that are set.
pub record Aggregate : Type 0 where
  pub database : Text
  pub collection : Text
  pub pipeline : List Document
  pub batch_size : Option ℕ
  pub allow_disk_use : Option Bool
  pub max_time : Option ℕ

pub record Driver : Type 0 where
  -- A client for a connection string, with its time limit to connect and its name.
  pub with_options : Text → ℕ → Text → Result Text (Unit {0})
  pub ping : Result Text (Unit {0})
  pub list_database_names : Result Text (List Text)
  pub list_collection_names : Text → Result Text (List Text)
  pub aggregate : Aggregate → Result Text (List Event)
  pub estimated_document_count : Text → Text → Result Text ℕ
  -- The keys of each index.
  pub list_indexes : Text → Text → Result Text (List (Result Text (List Text)))
