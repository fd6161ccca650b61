-- ===== src/Http/Toy.antt =====
-- An engine that answers every statement with the same three rows. It serves the examples only.
use auger.Base.{ℕ, true, List, [], ◌∷◌, Option, some, Text, codes}
use auger.Base.Results.{ok}
use auger.Config.{ServerConfig, default_server}
use auger.Http.{Batch, Outcome, QueryRequest, batches}

abbrev pub rows_1 : List (List Text)
rows_1 = (codes "1" ∷ []) ∷ (codes "2" ∷ []) ∷ []

abbrev pub rows_2 : List (List Text)
rows_2 = (codes "3" ∷ []) ∷ []

abbrev pub batch_of : List (List Text) → Batch
batch_of rs = record { columns = codes "n" ∷ []; types = codes "Int32" ∷ []; rows = ok rs }

abbrev pub three : List Batch
three = batch_of rows_1 ∷ batch_of rows_2 ∷ []

abbrev pub run : Text → Option ℕ → ℕ → Outcome
run sql limit timeout = batches three

abbrev pub console : ServerConfig
console = record default_server { http_query = true }

abbrev pub req : QueryRequest
req = record { sql = codes " select n from t; "; limit = some 2 }
