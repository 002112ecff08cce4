-- ===== src/Engine/Answered.antt =====
-- What `read` and `count` answer, over a storage that keeps a block for each record.
use mathlib.Core.List.{Perm}
use model_db.Prelude.{
  ℕ, String, ◌≡◌, refl, ◌↔◌, Bool, true, false, ◌&&◌, Option, none, some, List, [], ◌∷◌, arith,
  if◌then◌else◌, length, take, keep, All, ok, >>=-eq-ok, >>-eq-ok, ok-injective,
}
use model_db.Schema.{Values}
use model_db.Storage.Interface.{StorageBackend}
use model_db.Engine.{Comparisons, Texts, Record, ReadOperation, OperationResult, MdcDataEngine}
use model_db.Engine.Filters.{sort_all}
use model_db.Engine.Records.{open_all, matching}
use model_db.Engine.Calls.{read, count, limited, counted, is_empty}
use model_db.Engine.Sorted.{passes, matching_of-keep, sort_all-Perm}
use model_db.Engine.Satisfied.{Meets, passes-Meets}

module _ (b : StorageBackend) {v : Values} (w : Comparisons v) (x : Texts v) where
  matching-keep :
      (collection : String) (filters : _) (limit : Option ℕ) (s : MdcDataEngine b)
      (rs : List (Record v))
      → matching b w x none collection filters limit s ≡ ok rs
      → (all : List (Record v)) × (open_all b w x none s.storage
            (b.search s.storage (("collection", collection) ∷ []))
          ≡ ok all)
        × (rs ≡ keep (passes w filters) all)
        × (matching b w x none collection filters none s ≡ ok rs)
  unfolding matching
  matching-keep collection filters limit s rs h =
      let (_, h1) = >>-eq-ok _ _ h in
      let (all, opened, h2) =
        >>=-eq-ok
          (open_all b w x none s.storage (b.search s.storage (("collection", collection) ∷ []))) _
          h1 in
      (all, opened, matching_of-keep w filters all rs h2, h)

  -- On a storage that keeps a block for each record: if `read` answers, then its records are, up to
  -- the limit, those of the collection that meet every filter, each once and in some order; and
  -- `count` with the same filters answers how many there are without the limit.
  pub read-selects :
      (op : ReadOperation v) (s : MdcDataEngine b) (res : OperationResult v)
      → read b w x none op s ≡ ok res
      → (p : Record v → Bool) × ((r : Record v) → (p r ≡ true) ↔ All (Meets w r.fields) op.filters)
        × (all : List (Record v)) × (t : List (Record v)) × (open_all b w x none s.storage
              (b.search s.storage (("collection", op.collection) ∷ []))
            ≡ ok all)
        × Perm t (keep p all)
        × (op.limit ≡ none → res.records ≡ t)
        × ((n : ℕ) → op.limit ≡ some n → res.records ≡ take n t)
        × (count b w x none (record { collection = op.collection; filters = op.filters }) s
            ≡ ok (record {
              kind = "COUNT";
              collection = op.collection;
              records = [];
              count = length (keep p all);
            }))
  unfolding read count
  read-selects op s res h =
      let (rs, matched, h1) =
        >>=-eq-ok
          (matching b w x none op.collection op.filters
            (if is_empty op.sort then op.limit else none) s)
          _ h in
      let (t, in_order, h2) = >>=-eq-ok (sort_all w op.sort rs) _ h1 in
      let (all, opened, kept, again) = matching-keep op.collection op.filters _ s rs matched in
      let perm = sort_all-Perm w op.sort rs t in_order in
      let unasked : (is_empty op.filters && false) ≡ false = ground arith in
      let answered : res.records ≡ limited b w x none op.limit t = rw (← ok-injective h2) refl in
      let counts : count b w x none (record { collection = op.collection; filters = op.filters }) s
          ≡ ok (counted b w x none op.collection (length (keep (passes w op.filters) all))) =
        rw (unasked, again, ← kept) refl in
      (
        passes w op.filters,
        passes-Meets w op.filters,
        all,
        t,
        opened,
        rw (← kept) perm,
        λ unlimited. rw unlimited at answered,
        λ n given. rw given at answered,
        counts,
      )
