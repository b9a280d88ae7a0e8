-- ===== src/Store/Worker/Drained.antt =====
-- How the rounds of the outbox worker of crates/nunciod/src/main.rs use up the retries.
use nuncio.Common.{
  ℕ, zero, suc, ◌+◌, ◌≤◌, ◌≡◌, refl, sym, ap, ◌∙◌, Bool, true, false, List, [], ◌∷◌, map, All,
  All-imp, All-both, All-keep, All-take, take-empty, keep, take, if◌then◌else◌, str_eq, eq_iff, inl,
  inr, ◌⊎◌, arith,
}
use mathlib.Core.Path.{subst}
use nuncio.Common.Int.{ℤ, pos, negsuc}
use nuncio.Common.Sort.{sort_by_key, All-sort_by_key, sort_by_key-empty}
use nuncio.Store.Outbox.{PendingRemoteMutation}
use nuncio.Store.Database.{Database}
use nuncio.Store.Database.Statements.{statement-quiet}
use nuncio.Store.Queue.{list_pending_mutations}
use nuncio.Store.Worker.Honest.{IsOpen, request, worker_round_honest}
use nuncio.Store.Worker.{retry_item, retry_all, retry_listed, worker_round}
use nuncio.Store.Worker.Spending.{
  left, weight, total, settle, weight_waits, settle_cases, Fits, total-settle, settle-fitting, Same,
  IsKeyed, settle-IsKeyed, retry_item-settle, IsKeyed-Alike, retry_all-Spent,
}

-- The row is there.
abbrev Has : PendingRemoteMutation → List PendingRemoteMutation → Type 0
Has m [] = ⊥
Has m (r ∷ rows) = (r ≡ m) ⊎ Has m rows

all_there : (rows : List PendingRemoteMutation) → All (λ m. Has m rows) rows
all_there [] = tt
all_there (r ∷ rows) = (inl refl, All-imp (λ m. Has m rows) _ (λ m h. inr h) rows (all_there rows))

-- An item that waits counts one less after its round, so the rows together do.
total-settle_lt :
    (m : PendingRemoteMutation) (rows : List PendingRemoteMutation)
    → str_eq m.status "pending" ≡ true
    → Fits rows m
    → Has m rows
    → suc (total (map (settle m) rows)) ≤ total rows
total-settle_lt m [] waits fits has = absurd has
total-settle_lt m (r ∷ rows) waits (f, fits) (inl here) = elim (settle_cases m r) [
  | inl (same, e, k) ↦
      omega (arith, e, ap weight here, weight_waits m waits, total-settle m rows fits)
  | inr (apart, e) ↦ cc (apart, (eq_iff r.id m.id).1 (ap (λ t. t.id) here))
]
total-settle_lt m (r ∷ rows) waits (f, fits) (inr later) = elim (settle_cases m r) [
  | inl (same, e, k) ↦ omega (arith, e, f same, total-settle_lt m rows waits fits later)
  | inr (apart, e) ↦ rw e (omega (arith, total-settle_lt m rows waits fits later))
]

-- What the worker lists of the rows.
abbrev listed : List PendingRemoteMutation → List PendingRemoteMutation
listed rows = take 50 (sort_by_key (λ m. m.created_at) (keep (λ m. str_eq m.status "pending") rows))

-- What every row has, the listed ones have, and they wait.
All-listed :
    (P : PendingRemoteMutation → Type 0) (rows : List PendingRemoteMutation)
    → All P rows
    → All (λ m. P m × (str_eq m.status "pending" ≡ true)) (listed rows)
All-listed P rows h =
    All-take _ 50 _ (All-sort_by_key _ _ _ (All-keep P (λ m. str_eq m.status "pending") rows h))

total-unkept :
    (rows : List PendingRemoteMutation)
    → keep (λ m. str_eq m.status "pending") rows ≡ []
    → total rows ≡ 0
total-unkept [] e = refl
total-unkept (r ∷ rows) e = none_kept (str_eq r.status "pending") e (total-unkept rows)
  where
    none_kept :
        (b : Bool)
        → (if b
            then r ∷ keep (λ m. str_eq m.status "pending") rows
            else keep (λ m. str_eq m.status "pending") rows)
          ≡ []
        → (keep (λ m. str_eq m.status "pending") rows ≡ [] → total rows ≡ 0)
        → (if b then left r.retry_count else 0) + total rows ≡ 0
    none_kept true e h = cc e
    none_kept false e h = omega (arith, h e)

-- Nothing is listed only if nothing waits.
total-unlisted : (rows : List PendingRemoteMutation) → listed rows ≡ [] → total rows ≡ 0
total-unlisted rows e = total-unkept rows (sort_by_key-empty _ _ (take-empty 49 _ e))

-- A round on a database that answers: nothing waits any more, or less does.
abbrev Advanced : Database → Database → Type 0
Advanced db t =
    (t.outcomes ≡ [])
    × IsKeyed t.pending_remote_mutations
    × ((total t.pending_remote_mutations ≡ 0)
        ⊎ (suc (total t.pending_remote_mutations) ≤ total db.pending_remote_mutations))

retry_all-Advanced :
    (items : List PendingRemoteMutation) (db : Database)
    → listed db.pending_remote_mutations ≡ items
    → db.outcomes ≡ []
    → IsKeyed db.pending_remote_mutations
    → Advanced db (retry_all items db)
unfolding retry_all
retry_all-Advanced [] db e quiet keyed =
    (quiet, keyed, inl (total-unlisted db.pending_remote_mutations e))
retry_all-Advanced (m ∷ ms) db e quiet keyed =
    let rows = db.pending_remote_mutations in
    let kin : All (λ i. (All (Same i) rows × Has i rows) × (str_eq i.status "pending" ≡ true))
        (m ∷ ms) =
      subst (All _) e (All-listed _ rows (All-both _ _ rows keyed (all_there rows))) in
    let fits : All (Fits rows) (m ∷ ms) =
      All-imp _ _
        (λ i h.
          All-imp (Same i) _ (λ r f e. omega (arith, ap weight (f e), weight_waits i h.1)) rows
            h.0.0)
        (m ∷ ms) kin in
    let alike = IsKeyed-Alike (m ∷ ms) (
      All-imp _ _
        (λ i h.
          subst (All (Same i)) e
            (All-imp _ _ (λ r p. p.0) (listed rows) (All-listed (Same i) rows h.0.0)))
        (m ∷ ms) kin) in
    let (settled, quiet') = retry_item-settle m db quiet in
    let (q, k, le) =
      retry_all-Spent ms (retry_item m db).1 quiet'
        (subst IsKeyed (sym settled) (settle-IsKeyed m rows keyed))
        (subst (λ r. All (Fits r) ms) (sym settled) (settle-fitting m rows ms fits.1 alike.0))
        alike.1 in
    (
      q,
      k,
      inr (omega (arith, le, ap total settled, total-settle_lt m rows kin.0.1 fits.0 kin.0.0.1)),
    )

worker_round-Advanced :
    (db : Database)
    → db.outcomes ≡ []
    → IsKeyed db.pending_remote_mutations
    → Advanced db (worker_round db)
unfolding worker_round list_pending_mutations retry_listed
worker_round-Advanced db quiet keyed =
    rw (statement-quiet db quiet)
      (retry_all-Advanced (listed db.pending_remote_mutations) db refl quiet keyed)

-- Some rounds of the worker in a row.
abbrev pub rounds : ℕ → Database → Database
rounds zero db = db
rounds (suc n) db = rounds n (worker_round db)

total-rounds :
    (n : ℕ) (db : Database)
    → db.outcomes ≡ []
    → IsKeyed db.pending_remote_mutations
    → total db.pending_remote_mutations ≤ n
    → total (rounds n db).pending_remote_mutations ≡ 0
total-rounds zero db quiet keyed le = omega (arith, le)
total-rounds (suc n) db quiet keyed le =
    let (q, k, c) = worker_round-Advanced db quiet keyed in
    total-rounds n (worker_round db) q k
      (elim c [ inl none ↦ omega (arith, none) | inr less ↦ omega (arith, less, le) ])

rounds_honest :
    (n : ℕ) (db : Database)
    → All IsOpen db.pending_remote_mutations
    → (map request (rounds n db).pending_remote_mutations ≡ map request db.pending_remote_mutations)
      × All IsOpen (rounds n db).pending_remote_mutations
rounds_honest zero db h = (refl, h)
rounds_honest (suc n) db h =
    let (same, next) = worker_round_honest db h in
    let (later, end) = rounds_honest n (worker_round db) next in (later ∙ same, end)

some_left : (n : ℤ) → 1 ≤ left n
some_left (pos n) = ground arith
some_left (negsuc n) = omega arith

given_up :
    (rows : List PendingRemoteMutation)
    → total rows ≡ 0
    → All IsOpen rows
    → All (λ m. m.status ≡ "failed") rows
given_up [] e h = tt
given_up (r ∷ rows) e (inl waits, h) =
    absurd (
      omega
        (arith, e, some_left r.retry_count, weight_waits r (ap (λ s. str_eq s "pending") waits)))
given_up (r ∷ rows) e (inr failed, h) = (failed, given_up rows (omega (arith, e)) h)

-- When the database answers, no two rows share an id and every item waits or has failed, then after
-- at least as many rounds as the waiting items have left between them, with nothing else at work,
-- every item has failed; all are still there, and ask for what they asked for.
pub worker_gives_up :
    (db : Database) (n : ℕ)
    → db.outcomes ≡ []
    → IsKeyed db.pending_remote_mutations
    → All IsOpen db.pending_remote_mutations
    → total db.pending_remote_mutations ≤ n
    → (map request (rounds n db).pending_remote_mutations ≡ map request db.pending_remote_mutations)
      × All (λ m. m.status ≡ "failed") (rounds n db).pending_remote_mutations
worker_gives_up db n quiet keyed waiting le =
    let (same, end) = rounds_honest n db waiting in
    (same, given_up _ (total-rounds n db quiet keyed le) end)
