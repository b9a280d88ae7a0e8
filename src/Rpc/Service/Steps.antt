-- ===== src/Rpc/Service/Steps.antt =====
-- How a property of what a handler of crates/nunciod/src/grpc.rs returns follows from its steps.
use nuncio.Common.{◌≡◌, refl, String, inl, inr, Option, none, some, Result, ok, err}
use nuncio.Common.Action.{Action, continue}
use nuncio.Store.Accounts.Cases.{Accounts, Answers}
use nuncio.Store.Database.{Database, Db, DatabaseError, AccountRow, SqlxError}
use nuncio.Common.{List, sym, ok-inj, Bool, true, false}
use mathlib.Core.Path.{subst}
use nuncio.Rpc.Service.{Status, Service, Handler, ok_or, reject, on_db}

module _ {S : Type 0} {A : Type 0} {B : Type 0} (P : Result Status B × S → Type 0)
    (next : A → Action S Status B) where
  -- A value that was computed before, and the rest.
  pub given-step :
      (r : Result Status A) (s : S)
      → ((a : A) → r ≡ ok a → P (next a s))
      → ((e : Status) → r ≡ err e → P (err e, s))
      → P (continue next (r, s))
  given-step (ok a) s h k = h a refl
  given-step (err e) s h k = k e refl

module _ {A : Type 0} {B : Type 0} (P : Result Status B × Service → Type 0)
    (next : A → Handler B) where
  -- A call of the database, and the rest.
  pub on_db-step :
      (show_sqlx : SqlxError → String) (text : String) (m : Db A) (answer : A)
      (rows : List AccountRow) (s : Service)
      → Answers s.db answer rows (m s.db)
      → ((db : Database) → Accounts s.db rows db → P (next answer (record s { db = db })))
      → ((e : Status) (db : Database)
          → Accounts s.db s.db.accounts db
          → P (err e, record s { db = db }))
      → P (continue next (on_db show_sqlx text m s))
  on_db-step show_sqlx text m answer rows s a h k = told (m s.db) a
    where
      told :
          (o : Result DatabaseError A × Database)
          → Answers s.db answer rows o
          → P (continue next (on_db show_sqlx text (λ db. o) s))
      told (ok b, db) (inl (e, acc)) =
          subst (λ x. P (next x (record s { db = db }))) (sym (ok-inj e)) (h db acc)
      told (err x, db) (inl (e, acc)) = cc e
      told (ok b, db) (inr (x, e, acc)) = cc e
      told (err y, db) (inr (x, e, acc)) = k _ db acc

pub ok_or-eq-ok : {A : Type 0} (e : Status) (o : Option A) {a : A} → ok_or e o ≡ ok a → o ≡ some a
ok_or-eq-ok e none h = cc h
ok_or-eq-ok e (some a) h = cc h

pub reject-eq-ok : (b : Bool) (e : Status) → reject b e ≡ ok tt → b ≡ false
reject-eq-ok true e h = cc h
reject-eq-ok false e h = refl
