-- ===== src/Dict.antt =====
-- Python's `dict` with text keys, in insertion order: assignment to a key that is there keeps the
-- place of the key, and a new key goes to the end.
mod Base
pub mod Keys
unfoldable pub use Base.*
