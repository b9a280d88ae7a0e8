-- ===== src/Store/Worker.antt =====
-- The background outbox worker of crates/nunciod/src/main.rs: one round of its loop. The sleeps
-- before a retry do not touch the database.
pub mod Honest
mod Spending
pub mod Drained
use nuncio.Common.{ℕ, zero, suc, ◌+◌, List, [], ◌∷◌, Result, ok, err, if◌then◌else◌, ◌==◌}
use nuncio.Common.Int.{ℤ, pos, negsuc, ltb_ℤ}
use nuncio.Common.Action.{Action}
use nuncio.Store.Outbox.{PendingRemoteMutation, max_retries}
use nuncio.Store.Database.{Database, Db, DatabaseError}
use nuncio.Store.Queue.{list_pending_mutations, update_mutation_status}

-- `retry_count + 1` on `i32`, without the overflow checks of a debug build
unfoldable pub next_retry : ℤ → ℤ
next_retry (pos n) = if n == 2147483647 then negsuc 2147483647 else pos (n + 1)
next_retry (negsuc zero) = pos 0
next_retry (negsuc (suc n)) = negsuc n

-- The body of the loop over the pending items; its result is ignored.
unfoldable pub retry_item : PendingRemoteMutation → Db (Unit {0})
retry_item item =
    let next = next_retry item.retry_count in
    if ltb_ℤ max_retries next
    then update_mutation_status item.id "failed" next
    else update_mutation_status item.id "pending" next

unfoldable pub retry_all : List PendingRemoteMutation → Database → Database
retry_all [] db = db
retry_all (item ∷ items) db = retry_all items ((retry_item item db).1)

-- `if let Ok(pending)`
unfoldable pub retry_listed :
    Result DatabaseError (List PendingRemoteMutation) × Database → Database
retry_listed (ok pending, db) = retry_all pending db
retry_listed (err e, db) = db

unfoldable pub worker_round : Database → Database
worker_round db = retry_listed (list_pending_mutations 50 db)
