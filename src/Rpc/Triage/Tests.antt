-- ===== src/Rpc/Triage/Tests.antt =====
-- Runs of the triage worker over two messages, page by page.
use nuncio.Common.{refl, String, [], ◌∷◌, some, none, arith}
use mathlib.Core.List.{Perm}
use nuncio.Filter.Tests.{literal, engine}
use nuncio.Store.Database.{Database, SqlxError}
use nuncio.Store.Chunk.{by_id}
use nuncio.Store.Tests.{plain_host, one_message, stored_message}
use nuncio.Rpc.Triage.{triage, chunk_size_of, no_counts}
use nuncio.Rpc.Triage.Termination.{HasEnded, triage-HasEnded}
use nuncio.Rpc.Triage.OnePass.{one_pass, Whole, triage-one_pass}

abbrev show : SqlxError → String
show e = "failed"

abbrev two_messages : Database
two_messages = record one_message {
  messages = stored_message ∷ record stored_message { id = "msg-0" } ∷ [];
}

-- The third statement fails.
triage-HasEnded_example : HasEnded (
    triage literal plain_host engine show 1 1
      (record two_messages { outcomes = none ∷ none ∷ some "locked" ∷ [] }))
triage-HasEnded_example =
    triage-HasEnded literal plain_host engine show 1 1
      (record two_messages { outcomes = none ∷ none ∷ some "locked" ∷ [] }) ((refl, tt), (tt, tt))
      (refl, (refl, tt))

triage-one_pass_example :
    Perm (by_id two_messages.messages) two_messages.messages
    × Whole literal plain_host engine show
        (chunk_size_of 1)
        (one_pass literal plain_host engine show
          (chunk_size_of 1)
          (by_id two_messages.messages)
          no_counts
          two_messages)
        (triage literal plain_host engine show 1 3 two_messages)
triage-one_pass_example =
    triage-one_pass literal plain_host engine show 1 3 two_messages ((refl, tt), (tt, tt))
      (refl, (refl, tt)) refl (omega arith)
