-- ===== src/Events/Store/Laws.antt =====
-- What events/store.py relies on: of Python's text functions, and of the search of its
-- storage; and that the ids of its blocks do not meet.
pub mod Sorting
pub mod Memory
use model_db.Prelude.{
  ℕ, String, ◌≡◌, refl, sym, ap, ◌∙◌, ◌≢◌, Bool, true, false, some, List, [], ◌∷◌, ◌++◌, arith,
  str_eq, str_eq_iff, ◌+ˢ◌, codes, codes-append, is_id,
}
use model_db.Dict.{Dict}
use model_db.Storage.Interface.{Bytes, Metadata, MetaFields, StorageBackend, IsLawful}
use model_db.Storage.Memory.{fits}
use model_db.Events.Store.{
  EventRecord, Environment, event_prefix, snapshot_prefix, starts_with, event_id, snapshot_id,
  seq_of,
}

pub record IsDocumented (e : Environment) : Type 0 where
  pub int_of-pad : (n : ℕ) → e.int_of (e.pad n) ≡ n
  -- a number has no colon
  pub last_part-pad :
      (head stream : String) (n : ℕ) → e.last_part (head +ˢ (stream +ˢ (":" +ˢ e.pad n))) ≡ e.pad n

-- `after` is `before`, with `x` put in somewhere if `found`
abbrev pub Inserted : Bool → String → List String → List String → Type 0
Inserted true x before after =
    (xs : List String) × (ys : List String) × (before ≡ xs ++ ys) × (after ≡ xs ++ (x ∷ ys))
Inserted false x before after = after ≡ before

-- A search lists a new block if its metadata fit, and the other blocks as before.
pub record IsSearchable {sha256 : Bytes → String} {b : StorageBackend} (law : IsLawful sha256 b)
    (repr : MetaFields → String) : Type 0 where
  pub search-put :
      (s : b.Store) (t : ℕ) (x : String) (p : Bytes) (m : Metadata) (f : String × String)
      (filters : Dict String)
      → law.IsValid s
      → b.exists s x ≡ false
      → Inserted
          (fits repr (f ∷ filters) m)
          x
          (b.search s (f ∷ filters))
          (b.search (b.put s t x p m).0 (f ∷ filters))

module _ (e : Environment) (d : IsDocumented e) where
  pub seq_of-event_id : (stream : String) (n : ℕ) → seq_of e (event_id e stream n) ≡ n
  unfolding seq_of event_id
  seq_of-event_id stream n = ap e.int_of (d.last_part-pad "evt:" stream n) ∙ d.int_of-pad n

  pub seq_of-snapshot_id : (stream : String) (n : ℕ) → seq_of e (snapshot_id e stream n) ≡ n
  unfolding seq_of snapshot_id
  seq_of-snapshot_id stream n = ap e.int_of (d.last_part-pad "snp:" stream n) ∙ d.int_of-pad n

  pub event_id-ne :
      (stream stream' : String) (m n : ℕ)
      → m ≢ n
      → str_eq (event_id e stream m) (event_id e stream' n) ≡ false
  event_id-ne stream stream' m n h = ground (
    arith,
    str_eq_iff (event_id e stream m) (event_id e stream' n),
    λ (p : event_id e stream m ≡ event_id e stream' n).
        h (sym (seq_of-event_id stream m) ∙ ap (seq_of e) p ∙ seq_of-event_id stream' n),
  )

  pub snapshot_id-ne :
      (stream stream' : String) (m n : ℕ)
      → m ≢ n
      → str_eq (snapshot_id e stream m) (snapshot_id e stream' n) ≡ false
  snapshot_id-ne stream stream' m n h = ground (
    arith,
    str_eq_iff (snapshot_id e stream m) (snapshot_id e stream' n),
    λ (p : snapshot_id e stream m ≡ snapshot_id e stream' n).
        h (sym (seq_of-snapshot_id stream m) ∙ ap (seq_of e) p ∙ seq_of-snapshot_id stream' n),
  )

abbrev first_code : List ℕ → ℕ
first_code [] = 0
first_code (n ∷ cs) = n

pub event_id-ne-snapshot_id :
    (e : Environment) (stream stream' : String) (m n : ℕ)
    → str_eq (event_id e stream m) (snapshot_id e stream' n) ≡ false
unfolding event_id snapshot_id
event_id-ne-snapshot_id e stream stream' m n =
    let left : first_code (codes (event_id e stream m)) ≡ 101 =
      ap first_code (codes-append "evt:" (stream +ˢ (":" +ˢ e.pad m))) in
    let right : first_code (codes (snapshot_id e stream' n)) ≡ 115 =
      ap first_code (codes-append "snp:" (stream' +ˢ (":" +ˢ e.pad n))) in
    ground (
      arith,
      str_eq_iff (event_id e stream m) (snapshot_id e stream' n),
      λ (p : event_id e stream m ≡ snapshot_id e stream' n). ap (λ t. first_code (codes t)) p,
    )

pub starts_with-event_id :
    (e : Environment) (stream : String) (n : ℕ)
    → starts_with event_prefix (event_id e stream n) ≡ true
unfolding event_id
starts_with-event_id e stream n = rw (codes-append "evt:" (stream +ˢ (":" +ˢ e.pad n))) refl

pub starts_with-snapshot_id :
    (e : Environment) (stream : String) (n : ℕ)
    → starts_with snapshot_prefix (snapshot_id e stream n) ≡ true
unfolding snapshot_id
starts_with-snapshot_id e stream n = rw (codes-append "snp:" (stream +ˢ (":" +ˢ e.pad n))) refl
