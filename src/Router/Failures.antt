-- ===== src/Router/Failures.antt =====
-- What `retrieve` of the router answers when it verifies the content.
use model_db.Prelude.{
  String, ◌≡◌, inl, inr, true, some, arith, ok, ◌>>=◌, Result-cases, >>=-eq-ok, str_eq_iff,
}
use model_db.Storage.Interface.{Bytes, StorageBackend}
use model_db.Platform.{Platform}
use model_db.Compression.{decompress}
use model_db.Index
use model_db.Index.{IndexEntry, EntryJson}
use model_db.Router.{StorageRouter, Settings, stored_bytes, content_of, retrieve, require_entry}

module _ (p : Platform) (b : StorageBackend) (json : EntryJson) (settings : Settings) where
  checked_content :
      (i : String) (e : IndexEntry) (physical content : Bytes)
      → content_of p b json settings i true e physical ≡ ok content
      → p.sha256 content ≡ e.checksum
  unfolding content_of
  checked_content i e physical content h =
      elim (Result-cases (decompress p physical e.compression)) [
        | inl (c, opened) ↦ ground (arith, opened, str_eq_iff (p.sha256 c) e.checksum)
        | inr (x, failed) ↦ ground (arith, failed)
      ]

module _ (p : Platform) (b : StorageBackend) (json : EntryJson) (settings : Settings)
    (r : StorageRouter b) (i : String) (e : IndexEntry)
    (found : Index.get b json r.durable i ≡ ok (some e)) where
  -- Whatever is retrieved with verification has the checksum that the entry of the object records.
  pub retrieve-checksum :
      (content : Bytes)
      → retrieve p b json settings r i true ≡ ok content
      → p.sha256 content ≡ e.checksum
  unfolding retrieve require_entry
  retrieve-checksum content h =
      let rest : (stored_bytes p b json settings r i e >>= content_of p b json settings i true e)
          ≡ ok content =
        rw found at h in
      let (physical, _, checked) = >>=-eq-ok (stored_bytes p b json settings r i e) _ rest in
      checked_content p b json settings i e physical content checked
