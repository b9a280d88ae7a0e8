-- ===== src/Store/Worker/Honest.antt =====
-- What the outbox worker of crates/nunciod/src/main.rs never does to an item.
use nuncio.Common.{
  ◌≡◌, refl, ◌∙◌, String, Bool, true, false, List, [], ◌∷◌, map, Result, ok, err, All,
  if◌then◌else◌, str_eq, inl, inr, ◌⊎◌,
}
use nuncio.Common.Int.{ℤ, ltb_ℤ}
use nuncio.Common.Action.{Keeps, >>=-Keeps}
use nuncio.Store.Outbox.{PendingRemoteMutation, max_retries}
use nuncio.Store.Database.{Database, DatabaseError, statement}
use nuncio.Store.Database.Statements.{statement-Keeps, write-Keeps}
use nuncio.Store.Queue.{list_pending_mutations, update_mutation_status, with_status}
use nuncio.Store.Worker.{next_retry, retry_item, retry_all, retry_listed, worker_round}

-- An item that was not executed: it waits, or was given up.
abbrev pub IsOpen : PendingRemoteMutation → Type 0
IsOpen m = (m.status ≡ "pending") ⊎ (m.status ≡ "failed")

-- What an item asks of the server.
abbrev pub Request : Type 0
Request = String × String × String × String × String

abbrev pub request : PendingRemoteMutation → Request
request m = (m.id, m.rule_id, m.message_id, m.mutation_type, m.payload)

-- The row that an update writes, or leaves.
updated : Bool → String → ℤ → PendingRemoteMutation → PendingRemoteMutation
updated b status n m = if b then record m { status = status; retry_count = n } else m

updated-request :
    (b : Bool) (status : String) (n : ℤ) (m : PendingRemoteMutation)
    → request (updated b status n m) ≡ request m
unfolding updated
updated-request true status n m = refl
updated-request false status n m = refl

updated-IsOpen :
    (b : Bool) (status : String) (n : ℤ) (m : PendingRemoteMutation)
    → (status ≡ "pending") ⊎ (status ≡ "failed")
    → IsOpen m
    → IsOpen (updated b status n m)
unfolding updated
updated-IsOpen true status n m s h = s
updated-IsOpen false status n m s h = h

module _ (id status : String) (n : ℤ) where
  map-request :
      (ms : List PendingRemoteMutation)
      → map request (map (with_status id status n) ms) ≡ map request ms
  unfolding with_status updated
  map-request [] = refl
  map-request (m ∷ ms) = cc (updated-request (str_eq m.id id) status n m, map-request ms)

  All-IsOpen :
      (ms : List PendingRemoteMutation)
      → (status ≡ "pending") ⊎ (status ≡ "failed")
      → All IsOpen ms
      → All IsOpen (map (with_status id status n) ms)
  unfolding with_status updated
  All-IsOpen [] s h = tt
  All-IsOpen (m ∷ ms) s (h, hs) =
      (updated-IsOpen (str_eq m.id id) status n m s h, All-IsOpen ms s hs)

module _ (start : List PendingRemoteMutation) where
  -- The requests are those of the start, and none was closed.
  abbrev IsHonest : Database → Type 0
  IsHonest db =
      (map request db.pending_remote_mutations ≡ map request start)
      × All IsOpen db.pending_remote_mutations

  update_mutation_status-IsHonest :
      (id status : String) (n : ℤ)
      → (status ≡ "pending") ⊎ (status ≡ "failed")
      → Keeps IsHonest (update_mutation_status id status n)
  unfolding update_mutation_status
  update_mutation_status-IsHonest id status n s =
      write-Keeps IsHonest (λ db o h. h) _
        (λ db (r, h). (
          map-request id status n db.pending_remote_mutations ∙ r,
          All-IsOpen id status n db.pending_remote_mutations s h,
        ))

  retry_item-IsHonest : (m : PendingRemoteMutation) → Keeps IsHonest (retry_item m)
  unfolding retry_item
  retry_item-IsHonest m = chosen (ltb_ℤ max_retries (next_retry m.retry_count))
    where
      chosen :
          (b : Bool)
          → Keeps IsHonest (
              if b
              then update_mutation_status m.id "failed" (next_retry m.retry_count)
              else update_mutation_status m.id "pending" (next_retry m.retry_count))
      chosen true = update_mutation_status-IsHonest m.id "failed" _ (inr refl)
      chosen false = update_mutation_status-IsHonest m.id "pending" _ (inl refl)

  retry_all-IsHonest :
      (ms : List PendingRemoteMutation) (db : Database) → IsHonest db → IsHonest (retry_all ms db)
  unfolding retry_all
  retry_all-IsHonest [] db h = h
  retry_all-IsHonest (m ∷ ms) db h = retry_all-IsHonest ms _ (retry_item-IsHonest m db h)

  retry_listed-IsHonest :
      (o : Result DatabaseError (List PendingRemoteMutation) × Database)
      → IsHonest (o.1)
      → IsHonest (retry_listed o)
  unfolding retry_listed
  retry_listed-IsHonest (ok ms, db) h = retry_all-IsHonest ms db h
  retry_listed-IsHonest (err e, db) h = h

-- A round of the worker, whichever statements fail, drops no item of the outbox, changes nothing of
-- what the items ask for, and leaves each of them pending or failed if they were before.
pub worker_round_honest :
    (db : Database)
    → All IsOpen db.pending_remote_mutations
    → (map request (worker_round db).pending_remote_mutations
        ≡ map request db.pending_remote_mutations)
      × All IsOpen (worker_round db).pending_remote_mutations
unfolding worker_round list_pending_mutations
worker_round_honest db h =
    retry_listed-IsHonest db.pending_remote_mutations (list_pending_mutations 50 db) (
      >>=-Keeps (IsHonest db.pending_remote_mutations) statement _
        (statement-Keeps (IsHonest db.pending_remote_mutations) (λ db o h. h)) (λ u db h. h) db
        (refl, h))
