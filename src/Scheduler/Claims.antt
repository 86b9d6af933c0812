-- ===== src/Scheduler/Claims.antt =====
-- Which rows a claim of app/services/scheduler_service.py takes.
use mathlib.Core.Bool.{true≢false}
use updatednitr.Prelude.{
  Member-All, ℕ, zero, suc, ◌+◌, ◌≤◌, ◌≡◌, refl, sym, ap, ◌∙◌, ◌⊎◌, inl, inr, Bool, true, false,
  some, List, [], ◌∷◌, map, arith, leb, keep, if◌then◌else◌, nat_eq, contains, length, All, Member,
  All-Member, Member-keep, Member-kept, Bool-cases,
}
use updatednitr.Scheduler.Rows.{
  Row, is_due, insert_by_next, order_by_next, limit, claim_row, update_where, select_due,
  claim_due_schedule_rows,
}

-- d stands no later than all of these.
abbrev IsBefore : Row → List Row → Type 0
IsBefore d = All (λ (r : Row). d.next_sync_at ≤ r.next_sync_at)

abbrev IsOrdered : List Row → Type 0
IsOrdered [] = Unit
IsOrdered (r ∷ rs) = IsBefore r rs × IsOrdered rs

IsBefore-trans :
    (d e : Row) (rs : List Row) → d.next_sync_at ≤ e.next_sync_at → IsBefore e rs → IsBefore d rs
IsBefore-trans d e [] h b = tt
IsBefore-trans d e (r ∷ rs) h b = (omega (arith, h, b.0), IsBefore-trans d e rs h b.1)

insert_by_next-IsBefore :
    (d r : Row) (rs : List Row)
    → d.next_sync_at ≤ r.next_sync_at
    → IsBefore d rs
    → IsBefore d (insert_by_next r rs)
unfolding insert_by_next
insert_by_next-IsBefore d r [] h b = (h, tt)
insert_by_next-IsBefore d r (s ∷ rs) h b =
    ground (arith, h, b, insert_by_next-IsBefore d r rs h b.1)

insert_by_next-IsOrdered :
    (r : Row) (rs : List Row) → IsOrdered rs → IsOrdered (insert_by_next r rs)
unfolding insert_by_next
insert_by_next-IsOrdered r [] o = (tt, tt)
insert_by_next-IsOrdered r (s ∷ rs) o = elim (Bool-cases (leb r.next_sync_at s.next_sync_at)) [
  | inl h ↦ rw h ((ground (arith, h), IsBefore-trans r s rs (ground (arith, h)) o.0), o)
  | inr h ↦
      rw h
        (insert_by_next-IsBefore s r rs (ground (arith, h)) o.0, insert_by_next-IsOrdered r rs o.1)
]

order_by_next-IsOrdered : (rs : List Row) → IsOrdered (order_by_next rs)
unfolding order_by_next
order_by_next-IsOrdered [] = tt
order_by_next-IsOrdered (r ∷ rs) =
    insert_by_next-IsOrdered r (order_by_next rs) (order_by_next-IsOrdered rs)

insert_by_next-Member :
    (d r : Row) (rs : List Row) → (d ≡ r) ⊎ Member d rs → Member d (insert_by_next r rs)
unfolding insert_by_next
insert_by_next-Member d r [] m = m
insert_by_next-Member d r (s ∷ rs) m =
    go (leb r.next_sync_at s.next_sync_at) m (insert_by_next-Member d r rs)
  where
    go :
        (b : Bool)
        → (d ≡ r) ⊎ Member d (s ∷ rs)
        → ((d ≡ r) ⊎ Member d rs → Member d (insert_by_next r rs))
        → Member d (if b then r ∷ s ∷ rs else s ∷ insert_by_next r rs)
    go true m ih = m
    go false (inl e) ih = inr (ih (inl e))
    go false (inr (inl e)) ih = inl e
    go false (inr (inr n)) ih = inr (ih (inr n))

Member-insert_by_next :
    (d r : Row) (rs : List Row) → Member d (insert_by_next r rs) → (d ≡ r) ⊎ Member d rs
unfolding insert_by_next
Member-insert_by_next d r [] m = m
Member-insert_by_next d r (s ∷ rs) m =
    go (leb r.next_sync_at s.next_sync_at) m (Member-insert_by_next d r rs)
  where
    go :
        (b : Bool)
        → Member d (if b then r ∷ s ∷ rs else s ∷ insert_by_next r rs)
        → (Member d (insert_by_next r rs) → (d ≡ r) ⊎ Member d rs)
        → (d ≡ r) ⊎ Member d (s ∷ rs)
    go true m ih = m
    go false (inl e) ih = inr (inl e)
    go false (inr n) ih = elim (ih n) [ inl e ↦ inl e | inr k ↦ inr (inr k) ]

order_by_next-Member : (d : Row) (rs : List Row) → Member d rs → Member d (order_by_next rs)
unfolding order_by_next
order_by_next-Member d [] m = m
order_by_next-Member d (r ∷ rs) (inl e) = insert_by_next-Member d r (order_by_next rs) (inl e)
order_by_next-Member d (r ∷ rs) (inr m) =
    insert_by_next-Member d r (order_by_next rs) (inr (order_by_next-Member d rs m))

Member-order_by_next : (d : Row) (rs : List Row) → Member d (order_by_next rs) → Member d rs
unfolding order_by_next
Member-order_by_next d [] m = m
Member-order_by_next d (r ∷ rs) m = elim (Member-insert_by_next d r (order_by_next rs) m) [
  | inl e ↦ inl e
  | inr n ↦ inr (Member-order_by_next d rs n)
]

length-limit : (n : ℕ) (rs : List Row) → length (limit n rs) ≤ n
length-limit n [] = omega arith
length-limit zero (r ∷ rs) = omega arith
length-limit (suc n) (r ∷ rs) = omega (arith, length-limit n rs)

Member-limit : (d : Row) (n : ℕ) (rs : List Row) → Member d (limit n rs) → Member d rs
Member-limit d n [] m = m
Member-limit d zero (r ∷ rs) m = elim m [ ]
Member-limit d (suc n) (r ∷ rs) (inl e) = inl e
Member-limit d (suc n) (r ∷ rs) (inr m) = inr (Member-limit d n rs m)

-- The limit is used up by rows that stand no later than d.
abbrev pub IsFull : ℕ → Row → List Row → Type 0
IsFull n d rs = (length rs ≡ n) × All (λ (r : Row). r.next_sync_at ≤ d.next_sync_at) rs

limit-Member :
    (d : Row) (n : ℕ) (rs : List Row)
    → IsOrdered rs
    → Member d rs
    → Member d (limit n rs) ⊎ IsFull n d (limit n rs)
limit-Member d n [] o m = elim m [ ]
limit-Member d zero (r ∷ rs) o m = inr (refl, tt)
limit-Member d (suc n) (r ∷ rs) o (inl e) = inl (inl e)
limit-Member d (suc n) (r ∷ rs) o (inr m) = elim (limit-Member d n rs o.1 m) [
  | inl k ↦ inl (inr k)
  | inr f ↦
      inr (ap suc f.0, (All-Member (λ (x : Row). r.next_sync_at ≤ x.next_sync_at) d rs m o.0, f.1))
]

select_due-Member :
    (now stale batch : ℕ) (t : List Row) (d : Row)
    → Member d (select_due now stale batch t)
    → Member d t × (is_due now stale d ≡ true)
unfolding select_due
select_due-Member now stale batch t d m = Member-kept (is_due now stale) d t (
    Member-order_by_next d (keep (is_due now stale) t)
      (Member-limit d batch (order_by_next (keep (is_due now stale) t)) m))

pub length-select_due :
    (now stale batch : ℕ) (t : List Row) → length (select_due now stale batch t) ≤ batch
unfolding select_due
length-select_due now stale batch t = length-limit batch (order_by_next (keep (is_due now stale) t))

-- A claim selects at most `batch` rows, all of them due. A due row of the table is left out only
-- when `batch` rows are selected that were to be synced no later.
pub select_due-earliest :
    (now stale batch : ℕ) (t : List Row) (d : Row)
    → Member d t
    → is_due now stale d ≡ true
    → (length (select_due now stale batch t) ≤ batch)
      × All (λ (r : Row). is_due now stale r ≡ true) (select_due now stale batch t)
      × (Member d (select_due now stale batch t) ⊎ IsFull batch d (select_due now stale batch t))
unfolding select_due
select_due-earliest now stale batch t d m h =
    let due : List Row = keep (is_due now stale) t in
    (
      length-select_due now stale batch t,
      Member-All (λ (r : Row). is_due now stale r ≡ true) (select_due now stale batch t)
          (λ r n. (select_due-Member now stale batch t r n).1),
      limit-Member d batch (order_by_next due) (order_by_next-IsOrdered due)
          (order_by_next-Member d due (Member-keep (is_due now stale) d t m h)),
    )

contains-Member :
    (d : Row) (rs : List Row) → Member d rs → contains d.id (map (λ (r : Row). r.id) rs) ≡ true
unfolding contains
contains-Member d [] m = elim m [ ]
contains-Member d (r ∷ rs) (inl e) = ground (arith, ap (λ (x : Row). x.id) e)
contains-Member d (r ∷ rs) (inr m) = ground (arith, contains-Member d rs m)

-- After the claim, a row with a claimed id is claimed at `now`.
update_where-claimed :
    (now : ℕ) (ids : List ℕ) (d : Row) (t : List Row)
    → Member d (update_where ids (claim_row now) t)
    → contains d.id ids ≡ true
    → d.scheduler_claimed_at ≡ some now
unfolding update_where
update_where-claimed now ids d [] m h = elim m [ ]
update_where-claimed now ids d (r ∷ rs) m h =
    go (contains r.id ids) refl m (λ n. update_where-claimed now ids d rs n h)
  where
    go :
        (b : Bool)
        → contains r.id ids ≡ b
        → Member d ((if b then claim_row now r else r) ∷ update_where ids (claim_row now) rs)
        → (Member d (update_where ids (claim_row now) rs) → d.scheduler_claimed_at ≡ some now)
        → d.scheduler_claimed_at ≡ some now
    go true e (inl q) ih = ap (λ (x : Row). x.scheduler_claimed_at) q
    go true e (inr n) ih = ih n
    go false e (inl q) ih = absurd (true≢false (sym h ∙ ap (λ (x : Row). contains x.id ids) q ∙ e))
    go false e (inr n) ih = ih n

due-unclaimed :
    (now now' stale : ℕ) (d : Row)
    → now' ≤ now + stale
    → d.scheduler_claimed_at ≡ some now
    → is_due now' stale d ≡ false
unfolding is_due
due-unclaimed now now' stale d h e = ground (arith, h, e)

-- Two claims, the second before the first is stale: no row that the second takes has an id that the
-- first took, so no sync is enqueued twice.
pub scheduler_claims_exclusive :
    (now now' stale batch batch' : ℕ) (t : List Row) (d : Row)
    → now' ≤ now + stale
    → Member d (select_due now' stale batch' (claim_due_schedule_rows now stale batch t).0)
    → contains d.id (map (λ (r : Row). r.id) (select_due now stale batch t)) ≡ false
unfolding claim_due_schedule_rows
scheduler_claims_exclusive now now' stale batch batch' t d h m =
    let ids : List ℕ = map (λ (r : Row). r.id) (select_due now stale batch t) in
    let (n, e) =
      select_due-Member now' stale batch' (claim_due_schedule_rows now stale batch t).0 d m in
    elim (Bool-cases (contains d.id ids)) [
      | inl c ↦
          ground (arith, due-unclaimed now now' stale d h (update_where-claimed now ids d t n c), e)
      | inr c ↦ c
    ]
