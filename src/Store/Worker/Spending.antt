-- ===== src/Store/Worker/Spending.antt =====
-- What a round of the outbox worker of crates/nunciod/src/main.rs takes from the retries of the items.
use nuncio.Common.{◌==◌, ltb}
use nuncio.Common.{
  ℕ, zero, suc, ◌+◌, ◌-◌, ◌≤◌, ◌≡◌, refl, sym, ap, ◌∙◌, String, Bool, true, false, List, [], ◌∷◌,
  map, All, All-map, All-imp, if◌then◌else◌, str_eq, eq_iff, Bool-cases, inl, inr, ◌⊎◌, arith,
}
use mathlib.Core.Path.{subst}
use nuncio.Common.Int.{ℤ, pos, negsuc, ltb_ℤ}
use nuncio.Store.Outbox.{PendingRemoteMutation, max_retries}
use nuncio.Store.Database.{Database}
use nuncio.Store.Database.Statements.{statement-quiet}
use nuncio.Store.Queue.{update_mutation_status, with_status}
use nuncio.Store.Worker.{next_retry, retry_item, retry_all}

-- The rounds that an item may still take; the greatest count is followed by the smallest.
abbrev pub left : ℤ → ℕ
left (pos n) = if n == 2147483647 then 2147483655 else suc (5 - n)
left (negsuc n) = 7 + n

abbrev pub weight : PendingRemoteMutation → ℕ
weight m = if str_eq m.status "pending" then left m.retry_count else 0

abbrev pub total : List PendingRemoteMutation → ℕ
total [] = 0
total (m ∷ ms) = weight m + total ms

abbrev status_after : PendingRemoteMutation → String
status_after m = if ltb_ℤ max_retries (next_retry m.retry_count) then "failed" else "pending"

-- What the round of an item makes of a row.
abbrev pub settle : PendingRemoteMutation → PendingRemoteMutation → PendingRemoteMutation
settle m r = with_status m.id (status_after m) (next_retry m.retry_count) r

-- A count that does not overflow.
counted :
    (n k : ℕ)
    → k ≡ n + 1
    → (n == 2147483647) ≡ false
    → ((ltb_ℤ max_retries (pos k) ≡ true) × (suc (5 - n) ≡ 1))
      ⊎ ((ltb_ℤ max_retries (pos k) ≡ false) × (suc (left (pos k)) ≡ suc (5 - n)))
counted n k e h = elim (Bool-cases (ltb 5 k)) [
  | inl over ↦ inl (ground arith, ground arith)
  | inr within ↦
      let small : (k == 2147483647) ≡ false = ground arith in
      inr (ground arith, rw small (ground arith))
]

one_less :
    (n : ℤ)
    → ((ltb_ℤ max_retries (next_retry n) ≡ true) × (left n ≡ 1))
      ⊎ ((ltb_ℤ max_retries (next_retry n) ≡ false) × (suc (left (next_retry n)) ≡ left n))
unfolding next_retry
one_less (pos n) = elim (Bool-cases (n == 2147483647)) [
  | inl last ↦ rw last (inr (refl, refl))
  | inr other ↦ rw other (counted n (n + 1) refl other)
]
one_less (negsuc zero) = inr (refl, refl)
one_less (negsuc (suc n)) = inr (ground arith, omega arith)

weight-settled :
    (m r : PendingRemoteMutation)
    → suc (weight (record r { status = status_after m; retry_count = next_retry m.retry_count }))
      ≡ left m.retry_count
weight-settled m r = elim (one_less m.retry_count) [
  | inl (e, f) ↦ rw e (sym f)
  | inr (e, f) ↦ rw e f
]

pub weight_waits :
    (m : PendingRemoteMutation) → str_eq m.status "pending" ≡ true → weight m ≡ left m.retry_count
weight_waits m e = rw e refl

-- The rows of the item's id count one less, the others stay.
pub settle_cases :
    (m r : PendingRemoteMutation)
    → ((r.id ≡ m.id) × (suc (weight (settle m r)) ≡ left m.retry_count) × ((settle m r).id ≡ r.id))
      ⊎ ((str_eq r.id m.id ≡ false) × (settle m r ≡ r))
unfolding with_status
settle_cases m r = elim (Bool-cases (str_eq r.id m.id)) [
  | inl same ↦ inl ((eq_iff r.id m.id).0 same, rw same (weight-settled m r), rw same refl)
  | inr apart ↦ inr (apart, rw apart refl)
]

-- A row of the item's id counts at least what is left after the item's round.
abbrev pub Fits : List PendingRemoteMutation → PendingRemoteMutation → Type 0
Fits rows m = All (λ r. r.id ≡ m.id → left m.retry_count ≤ suc (weight r)) rows

pub total-settle :
    (m : PendingRemoteMutation) (rows : List PendingRemoteMutation)
    → Fits rows m
    → total (map (settle m) rows) ≤ total rows
total-settle m [] h = omega arith
total-settle m (r ∷ rows) (f, h) = elim (settle_cases m r) [
  | inl (same, e, i) ↦ omega (arith, e, f same, total-settle m rows h)
  | inr (apart, e) ↦ rw e (omega (arith, total-settle m rows h))
]

settle-Fits :
    (m i : PendingRemoteMutation) (rows : List PendingRemoteMutation)
    → (m.id ≡ i.id → left m.retry_count ≡ left i.retry_count)
    → Fits rows i
    → Fits (map (settle m) rows) i
settle-Fits m i [] same h = tt
settle-Fits m i (r ∷ rows) alike (f, h) = (head (settle_cases m r), settle-Fits m i rows alike h)
  where
    head :
        ((r.id ≡ m.id)
            × (suc (weight (settle m r)) ≡ left m.retry_count)
            × ((settle m r).id ≡ r.id))
          ⊎ ((str_eq r.id m.id ≡ false) × (settle m r ≡ r))
        → (settle m r).id ≡ i.id
        → left i.retry_count ≤ suc (weight (settle m r))
    head (inl (same, e, k)) q = omega (arith, e, alike (sym same ∙ sym k ∙ q))
    head (inr (apart, e)) q =
        subst (λ t. left i.retry_count ≤ suc (weight t)) (sym e) (f (sym (ap (λ t. t.id) e) ∙ q))

pub settle-fitting :
    (m : PendingRemoteMutation) (rows is : List PendingRemoteMutation)
    → All (Fits rows) is
    → All (λ i. m.id ≡ i.id → left m.retry_count ≡ left i.retry_count) is
    → All (Fits (map (settle m) rows)) is
settle-fitting m rows [] h k = tt
settle-fitting m rows (i ∷ is) (h, hs) (k, ks) =
    (settle-Fits m i rows k h, settle-fitting m rows is hs ks)

settle-id : (m r : PendingRemoteMutation) → (settle m r).id ≡ r.id
settle-id m r = elim (settle_cases m r) [ inl (same, e, k) ↦ k | inr (apart, e) ↦ ap (λ t. t.id) e ]

-- The id is a key: rows of one id are one row.
abbrev pub Same : PendingRemoteMutation → PendingRemoteMutation → Type 0
Same m r = r.id ≡ m.id → r ≡ m

abbrev pub IsKeyed : List PendingRemoteMutation → Type 0
IsKeyed rows = All (λ m. All (Same m) rows) rows

pub settle-IsKeyed :
    (m : PendingRemoteMutation) (rows : List PendingRemoteMutation)
    → IsKeyed rows
    → IsKeyed (map (settle m) rows)
settle-IsKeyed m rows h =
    All-map (λ i. All (Same i) (map (settle m) rows)) (settle m) rows
      (All-imp (λ i. All (Same i) rows) _
        (λ i k. All-map (Same (settle m i)) (settle m) rows (
          All-imp (Same i) _
            (λ r same e. ap (settle m) (same (sym (settle-id m r) ∙ e ∙ settle-id m i))) rows k))
        rows h)

-- An item's round on a database that answers.
pub retry_item-settle :
    (m : PendingRemoteMutation) (db : Database)
    → db.outcomes ≡ []
    → ((retry_item m db).1.pending_remote_mutations ≡ map (settle m) db.pending_remote_mutations)
      × ((retry_item m db).1.outcomes ≡ [])
unfolding retry_item update_mutation_status
retry_item-settle m db quiet = elim (Bool-cases (ltb_ℤ max_retries (next_retry m.retry_count))) [
  | inl e ↦ rw (e, statement-quiet db quiet) (ap written (sym e), quiet)
  | inr e ↦ rw (e, statement-quiet db quiet) (ap written (sym e), quiet)
]
  where
    written : Bool → List PendingRemoteMutation
    written b =
        map (with_status m.id (if b then "failed" else "pending") (next_retry m.retry_count))
          db.pending_remote_mutations

abbrev Alike : List PendingRemoteMutation → Type 0
Alike [] = Unit
Alike (m ∷ ms) = All (λ i. m.id ≡ i.id → left m.retry_count ≡ left i.retry_count) ms × Alike ms

pub IsKeyed-Alike : (ms : List PendingRemoteMutation) → IsKeyed ms → Alike ms
IsKeyed-Alike [] h = tt
IsKeyed-Alike (m ∷ ms) ((s, same), h) = (
  All-imp (Same m) _ (λ i f e. ap (λ t. left t.retry_count) (sym (f (sym e)))) ms same,
  IsKeyed-Alike ms (All-imp _ _ (λ i k. k.1) ms h),
)

-- The state after some items' rounds.
abbrev Spent : Database → Database → Type 0
Spent db t =
    (t.outcomes ≡ [])
    × IsKeyed t.pending_remote_mutations
    × (total t.pending_remote_mutations ≤ total db.pending_remote_mutations)

pub retry_all-Spent :
    (items : List PendingRemoteMutation) (db : Database)
    → db.outcomes ≡ []
    → IsKeyed db.pending_remote_mutations
    → All (Fits db.pending_remote_mutations) items
    → Alike items
    → Spent db (retry_all items db)
unfolding retry_all
retry_all-Spent [] db quiet keyed fits alike = (quiet, keyed, omega arith)
retry_all-Spent (m ∷ ms) db quiet keyed (f, fits) (a, alike) =
    let (rows, quiet') = retry_item-settle m db quiet in
    let (q, k, le) =
      retry_all-Spent ms (retry_item m db).1 quiet'
        (subst IsKeyed (sym rows) (settle-IsKeyed m db.pending_remote_mutations keyed))
        (subst (λ r. All (Fits r) ms) (sym rows)
          (settle-fitting m db.pending_remote_mutations ms fits a))
        alike in
    (q, k, omega (arith, le, ap total rows, total-settle m db.pending_remote_mutations f))
