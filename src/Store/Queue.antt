-- ===== src/Store/Queue.antt =====
-- The outbox table of crates/nuncio-store/src/db.rs: `save_pending_mutation`,
-- `list_pending_mutations` and `update_mutation_status`.
use nuncio.Common.{ℕ, String, not, List, [], ◌∷◌, ◌++◌, map, if◌then◌else◌, str_eq, keep, take}
use nuncio.Common.Int.{ℤ}
use nuncio.Common.Sort.{sort_by_key}
use nuncio.Common.Action.{◌>>◌}
use nuncio.Store.Outbox.{PendingRemoteMutation}
use nuncio.Store.Database.{Db, statement, select, modify}

unfoldable pub save_pending_mutation : PendingRemoteMutation → Db (Unit {0})
save_pending_mutation item = do
  statement
  modify (λ db. record db {
    pending_remote_mutations =
        keep (λ m. not (str_eq m.id item.id)) db.pending_remote_mutations ++ item ∷ [];
  })

unfoldable pub list_pending_mutations : (limit : ℕ) → Db (List PendingRemoteMutation)
list_pending_mutations limit = do
  statement
  select (λ db. take limit (
      sort_by_key (λ m. m.created_at)
        (keep (λ m. str_eq m.status "pending") db.pending_remote_mutations)))

unfoldable pub with_status : String → String → ℤ → PendingRemoteMutation → PendingRemoteMutation
with_status id status retry_count m =
    if str_eq m.id id then record m { status = status; retry_count = retry_count } else m

unfoldable pub update_mutation_status : String → String → ℤ → Db (Unit {0})
unfolding with_status
update_mutation_status id status retry_count = do
  statement
  modify (λ db. record db {
    pending_remote_mutations = map (with_status id status retry_count) db.pending_remote_mutations;
  })
