-- ===== src/Examples/Agents/Rotated.antt =====
-- A change of key after the only stream was deleted.
use model_db.Prelude.{
  ℕ, ◌≤◌, ◌≡◌, refl, ◌⊎◌, true, false, none, some, [], length, take, list_eq, ok, err, sorted,
  insert_sorted, id_rest,
}
use model_db.Events.Store.Reading.{block_ids}
use model_db.Events.Store.Listing.{list_streams_in, count_events}
use model_db.Events.Store.Writing.{
  write_keycheck, check_key, put_record, delete_stream, delete_blocks, create_stream,
}
use model_db.Events.Store.Requests.{when, keycheck_id, remember_in, canonical}
use model_db.Events.Store.{
  event_id, snapshot_id, EventStore, Environment, stream_of, seq_of, check_id,
}
use model_db.Events.Store.Rotation.{
  Plan, finished_under, plan_blocks, plan_streams, write_plan, write_check, carry_out, kind_and_seq,
  rotate_key,
}
use model_db.Events.Store.Rotation.Interrupted.{written}
use model_db.Events.Store.Rotation.Stopped.{rotate_key-Keeps}
use model_db.Events.Store.Rotation.Forgotten.{reopened, rotate_key-forgets_keycheck}
use model_db.Storage.Memory
use model_db.Events.Sealing.{open_sealed, seal, derive_stream_key}
use model_db.Events.Errors.{wrong_key, value_error, EventError}
use model_db.Examples.Dna.{new_key, old_key}
use model_db.Storage.Interface.{Outage}
use model_db.Dict
use model_db.Dict.{Dict}
use model_db.Storage.Memory.{empty, exists, search, backend}
use model_db.Events.Json.{object}
use model_db.Examples.Agents.{calm, env, memory, nonces}

-- a database whose only stream was deleted: the key check is left
abbrev left_over : EventStore memory
left_over =
    (delete_stream memory env "s1"
      (create_stream memory env 10 nonces "s1" (object calm) "path-ops" none none
        (reopened empty old_key)).0).0

left_over-keycheck :
    (list_eq new_key left_over.master ≡ false)
    × (left_over.key_verified ≡ true)
    × (list_streams_in memory env left_over.storage ≡ [])
    × (memory.exists left_over.storage keycheck_id ≡ true)
    × (finished_under memory env new_key left_over ≡ ok false)
unfolding finished_under open_sealed seal derive_stream_key create_stream delete_stream
    delete_blocks remember_in check_key write_keycheck put_record list_streams_in count_events
    block_ids sorted insert_sorted Memory.search Memory.exists Memory.put Memory.get Memory.delete
    Dict.get Dict.select Dict.put Dict.remove check_id id_rest canonical when event_id snapshot_id
left_over-keycheck = (refl, refl, refl, refl, refl)

rotate_key-forgets_keycheck_example :
    ((rotate_key memory env 20 nonces none new_key left_over).1
      ≡ ok (record { streams = 0; records = 0; already_current = 0 }))
    × ((rotate_key memory env 20 nonces none new_key left_over).0.master ≡ new_key)
    × ((check_key memory env 20 nonces true
          (reopened (rotate_key memory env 20 nonces none new_key left_over).0.storage new_key)).1
        ≡ err wrong_key)
rotate_key-forgets_keycheck_example =
    rotate_key-forgets_keycheck memory env 20 nonces none left_over new_key true refl
      left_over-keycheck.0 left_over-keycheck.1 left_over-keycheck.2 left_over-keycheck.3
      left_over-keycheck.4

-- the texts of a database with one stream
abbrev one_name : Environment
one_name = record env { second_part = λ _. "s1" }

-- a database with one stream, whose storage takes one more write
abbrev one_stream : EventStore memory
one_stream =
    (create_stream memory one_name 10 nonces "s1" (object calm) "path-ops" none none
      (reopened empty old_key)).0

abbrev outage : Outage EventError
outage = some (1, value_error)

abbrev stopped : EventStore memory
stopped = (rotate_key memory one_name 20 nonces outage new_key one_stream).0

-- the base record was sealed again, and the write of the key check raised
one_stream-stopped :
    rotate_key memory one_name 20 nonces outage new_key one_stream ≡ (stopped, err value_error)
unfolding rotate_key finished_under open_sealed seal derive_stream_key create_stream delete_stream
    delete_blocks remember_in check_key write_keycheck put_record list_streams_in count_events
    block_ids sorted insert_sorted Memory.search Memory.exists Memory.put Memory.get Memory.delete
    Dict.get Dict.select Dict.put Dict.remove check_id id_rest canonical when event_id snapshot_id
    plan_streams plan_blocks carry_out write_plan write_check kind_and_seq stream_of seq_of
one_stream-stopped = refl

rotate_key-Keeps_example :
    (stopped.master ≡ one_stream.master)
    × ((stopped.storage ≡ one_stream.storage)
        ⊎ ((plan : Plan) × (n : ℕ) × (plan_streams memory one_name 20 nonces one_stream.master
                new_key one_stream.storage
                ([], 0)
                (list_streams_in memory one_name one_stream.storage)
              ≡ ok plan)
            × (outage ≡ some (n, value_error))
            × (n ≤ length plan.0)
            × (stopped.storage
                ≡ written memory one_name 20 nonces (take n plan.0) one_stream.storage)))
rotate_key-Keeps_example =
    rotate_key-Keeps memory one_name 20 nonces one_stream stopped outage new_key value_error
      one_stream-stopped
