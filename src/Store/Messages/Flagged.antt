-- ===== src/Store/Messages/Flagged.antt =====
-- What flagging a message leaves of the others in crates/nuncio-store/src/db.rs.
use nuncio.Common.{
  String, ◌≡◌, refl, ap, ◌∙◌, Bool, true, false, List, [], ◌∷◌, map, if◌then◌else◌, str_eq, eq_iff,
  keep,
}
use nuncio.Common.Action.{Keeps, >>=-Keeps}
use nuncio.Store.Database.{MessageRow, statement}
use nuncio.Store.Database.Statements.{statement-Keeps}
use nuncio.Store.Messages.{flag_row, set_message_read}

module _ (q : String → Bool) (id : String) (read : Bool) (unwanted : q id ≡ false) where
  -- One row, of the message or of another.
  one_row :
      (b : Bool) (r : MessageRow) (rest rest' : List MessageRow)
      → str_eq r.id id ≡ b
      → rest ≡ rest'
      → (if q ((if b then record r { read_flag = if read then 1 else 0 } else r).id)
          then (if b then record r { read_flag = if read then 1 else 0 } else r) ∷ rest
          else rest)
        ≡ (if q r.id then r ∷ rest' else rest')
  one_row false r rest rest' e h = ap (λ l. if q r.id then r ∷ l else l) h
  one_row true r rest rest' e h =
      let apart : q r.id ≡ false = ap q ((eq_iff r.id id).0 e) ∙ unwanted in rw apart h

  keep-flag_row :
      (rows : List MessageRow)
      → keep (λ r. q r.id) (map (flag_row id read) rows) ≡ keep (λ r. q r.id) rows
  unfolding flag_row
  keep-flag_row [] = refl
  keep-flag_row (r ∷ rows) =
      one_row (str_eq r.id id) r (keep (λ r. q r.id) (map (flag_row id read) rows))
        (keep (λ r. q r.id) rows) refl (keep-flag_row rows)

  -- The rows of a selection that leaves the message out.
  pub set_message_read-selects :
      (rows : List MessageRow)
      → Keeps (λ db. keep (λ r. q r.id) db.messages ≡ rows) (set_message_read id read)
  unfolding set_message_read
  set_message_read-selects rows =
      >>=-Keeps (λ db. keep (λ r. q r.id) db.messages ≡ rows) statement _
        (statement-Keeps (λ db. keep (λ r. q r.id) db.messages ≡ rows) (λ db o h. h))
        (λ u db h. keep-flag_row db.messages ∙ h)
