-- ===== src/Engine/Updated.antt =====
-- What `update` of engine/data_engine.py makes of a record, field by field.
use model_db.Prelude.{ℕ, ◌+◌, String, ◌≡◌, refl, none, some, List, [], ◌∷◌, map, if◌then◌else◌}
use model_db.Schema.{Values}
use model_db.Storage.Interface.{StorageBackend}
use model_db.Dict
use model_db.Dict.{Dict, contains}
use model_db.Dict.Keys.{IsUnique, get-merge}
use model_db.Engine.{Comparisons, Texts, Record}
use model_db.Engine.Calls.{updated_record}

module _ {v : Values} (x : Texts v) (now : ℕ) (validated : Dict v.Value) where
  -- a record and what it is after the update
  pub record IsUpdated (r t : Record v) : Type 0 where
    pub same_id : t.record_id ≡ r.record_id
    pub same_collection : t.collection ≡ r.collection
    pub same_created : t.created_at ≡ r.created_at
    pub counted : t.version ≡ r.version + 1
    pub stamped : t.updated_at ≡ now
    -- a key of the accepted values reads as there, every other key as before
    pub merged :
        (k : String)
        → Dict.get t.fields k
          ≡ (if contains validated k then Dict.get validated k else Dict.get r.fields k)
    pub summed : t.checksum ≡ some (x.checksum t.fields)

  -- the same, for each of the records in turn
  abbrev pub AreUpdated : List (Record v) → List (Record v) → Type 0
  AreUpdated [] [] = Unit
  AreUpdated (r ∷ rs) (t ∷ ts) = IsUpdated r t × AreUpdated rs ts
  AreUpdated _ _ = ⊥

  module _ (b : StorageBackend) (w : Comparisons v) (once : IsUnique validated) where
    updated_record-IsUpdated :
        (r : Record v) → IsUpdated r (updated_record b w x none now validated r)
    unfolding updated_record
    updated_record-IsUpdated r = record {
      same_id = refl;
      same_collection = refl;
      same_created = refl;
      counted = refl;
      stamped = refl;
      merged = λ k. get-merge r.fields validated k once;
      summed = refl;
    }

    pub map-AreUpdated :
        (rs : List (Record v)) → AreUpdated rs (map (updated_record b w x none now validated) rs)
    map-AreUpdated [] = tt
    map-AreUpdated (r ∷ rs) = (updated_record-IsUpdated r, map-AreUpdated rs)
