-- ===== src/Errors.antt =====
-- The errors of the crate `datafusion`, as far as the gateway makes or passes them on. What another
-- crate reports is a text.
use auger.Base.{Text}
use auger.Arrow.{DataType}
use auger.Base.Results

pub data DataFusionError : Type 0 where
  internal execution external arrow_error plan : Text → DataFusionError
  no_decoder : DataType → DataFusionError
  -- Not an error that is returned: the crate `arrow` panics, which ends the task.
  panicked : Text → DataFusionError

abbrev pub Result : Type 0 → Type 0
Result A = Results.Result DataFusionError A
