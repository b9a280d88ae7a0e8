-- ===== src/Store/Chunk.antt =====
-- The keyset scan of crates/nuncio-store/src/db.rs, `get_message_chunk`. SQLite compares ids byte by
-- byte.
use nuncio.Common.{ℕ, String, Bool, true, List, map, if◌then◌else◌, str_eq, keep, take}
use nuncio.Common.Action.{◌>>◌}
use nuncio.Common.Order.{str_lt}
use nuncio.Common.Ordered.{sort_by_text}
use nuncio.Core.Model.{Email}
use nuncio.Store.Host.{Host}
use nuncio.Store.Database.{Db, MessageRow, statement, select}
use nuncio.Store.Messages.{email_of}

-- `WHERE id > ?`, unless the last id is empty.
unfoldable pub is_after : String → MessageRow → Bool
is_after last_id row = if str_eq last_id "" then true else str_lt last_id row.id

-- `ORDER BY id ASC`
unfoldable pub by_id : List MessageRow → List MessageRow
by_id rows = sort_by_text (λ r. r.id) rows

unfoldable pub get_message_chunk : Host → (last_id : String) (limit : ℕ) → Db (List Email)
get_message_chunk host last_id limit = do
  statement
  select (λ db. map (email_of host db) (take limit (by_id (keep (is_after last_id) db.messages))))
