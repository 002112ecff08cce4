-- ===== src/Events/Errors.antt =====
-- events/errors.py, with the stream that an exception names, and what the storage below raises.
use model_db.Prelude.{String}
use model_db.Errors.{Error}

pub data EventError : Type 0 where
  stream_not_found stream_exists invalid_stream_id : String → EventError
  invalid_event wrong_key value_error : EventError
  state_not_yet concurrency stream_corrupt : String → EventError
  -- an exception of the storage backend
  storage : Error → EventError
  -- a key that a record does not have
  record_key : EventError
