-- ===== src/Jobs/Claim.antt =====
-- `claim` picks the oldest due job, misses none, and never hands one out twice.
use memoratum.Base.{
  ℕ, ◌≤◌, ◌≡◌, ◌≢◌, refl, ap, true, false, Option, none, some, [], ◌∷◌, arith, String, All, eqb,
}
use memoratum.Table.{select_where, find_where, update_where, count_where, order_by, first_row}
use memoratum.Table.First.{IsFirst, first_row-IsFirst}
use memoratum.Table.Keyed.{Keyed, Keyed-update_where, find_where_of_Memᴰ}
use memoratum.Jobs.{
  Job, Queue, is_queued, is_due, start, decode, get, has_id, is_queued_id, claim_row, claim,
}

abbrev pub job_id : Job → String
job_id j = j.id

-- What one call of `claim` may do: nothing, when no job is due, or start the oldest due job.
abbrev pub Claimed : ℕ → ℕ → String → Queue → Option Job → Queue → Type 0
Claimed now ttl w q none q' = All (λ j. is_due now j ≡ false) q × (q' ≡ q)
Claimed now ttl w q (some j) q' =
    (old : Job) × (find_where (has_id old.id) q ≡ some old)
    × (is_due now old ≡ true)
    × All (λ s. is_due now s ≡ true → old.created_at ≤ s.created_at) q
    × (j ≡ decode (start now ttl w old))
    × (q' ≡ update_where (is_queued_id old.id) (start now ttl w) q)
    × (find_where (has_id old.id) q' ≡ some (start now ttl w old))

-- The row that the SELECT found is still there for the UPDATE.
count_queued :
    (i : String) (q : Queue) (j : Job)
    → find_where (has_id i) q ≡ some j
    → is_queued j.status ≡ true
    → eqb (count_where (is_queued_id i) q) 0 ≡ false
unfolding find_where count_where
count_queued i [] j h e = cc
count_queued i (r ∷ rs) j h e = ground (arith, count_queued i rs j)

find_started :
    (now ttl : ℕ) (w i : String) (q : Queue) (j : Job)
    → find_where (has_id i) q ≡ some j
    → is_queued j.status ≡ true
    → find_where (has_id i) (update_where (is_queued_id i) (start now ttl w) q)
      ≡ some (start now ttl w j)
unfolding find_where update_where
find_started now ttl w i [] j h e = cc
find_started now ttl w i (r ∷ rs) j h e = ground (arith, find_started now ttl w i rs j)

get_of_find :
    (i : String) (q : Queue) (j : Job)
    → find_where (has_id i) q ≡ some j
    → get i q ≡ some (decode j)
unfolding get
get_of_find i q j h = rw (h, get)

due_queued : (now : ℕ) (j : Job) → is_due now j ≡ true → is_queued j.status ≡ true
due_queued now j h = ground arith

claim_row_lem :
    (now ttl : ℕ) (w : String) (q : Queue) (o : Option Job)
    → Keyed job_id q
    → IsFirst (is_due now) (λ j. j.created_at) q o
    → Claimed now ttl w q (claim_row now ttl w o q).0 (claim_row now ttl w o q).1
unfolding claim_row
claim_row_lem now ttl w q none k f = (f, refl)
claim_row_lem now ttl w q (some old) k f =
    let found : find_where (has_id old.id) q ≡ some old = find_where_of_Memᴰ job_id old q k f.2 in
    let ready : is_queued old.status ≡ true = due_queued now old f.0 in
    let started = find_started now ttl w old.id q old found ready in
    rw (count_queued old.id q old found ready) (
      rw
        (get_of_find old.id (update_where (is_queued_id old.id) (start now ttl w) q)
          (start now ttl w old) started)
        (old, found, f.0, f.1, refl, refl, started))

-- On a table whose ids are a primary key, `claim` returns nothing exactly when no job is queued and
-- due, and leaves the table alone then. Otherwise it returns a job that was queued and due, with
-- the least creation time of those, now running for this worker with one attempt more and the
-- lease `now + ttl`, and it changes no other row.
pub claim_lem :
    (now ttl : ℕ) (w : String) (q : Queue)
    → Keyed job_id q
    → Claimed now ttl w q (claim now ttl w q).0 (claim now ttl w q).1
unfolding claim
claim_lem now ttl w q k =
    claim_row_lem now ttl w q
      (first_row (order_by (λ j. j.created_at) (select_where (is_due now) q))) k
      (first_row-IsFirst (is_due now) (λ j. j.created_at) q)

claim_row-Keyed :
    (now ttl : ℕ) (w : String) (o : Option Job) (q : Queue)
    → Keyed job_id q
    → Keyed job_id (claim_row now ttl w o q).1
unfolding claim_row
claim_row-Keyed now ttl w none q k = k
claim_row-Keyed now ttl w (some r) q k =
    Keyed-update_where job_id (is_queued_id r.id) (start now ttl w) (λ j. refl) q k

pub claim-Keyed :
    (now ttl : ℕ) (w : String) (q : Queue) → Keyed job_id q → Keyed job_id (claim now ttl w q).1
unfolding claim
claim-Keyed now ttl w q k = claim_row-Keyed now ttl w _ q k

-- A job that a claim has just started is not due for the next one.
not-Claimed_again :
    (now ttl now' ttl' : ℕ) (w w' : String) (q q' q'' : Queue) (i j : Job)
    → Claimed now ttl w q (some i) q'
    → Claimed now' ttl' w' q' (some j) q''
    → i.id ≢ j.id
not-Claimed_again now ttl now' ttl' w w' q q' q'' i j (old, a0, a1, a2, a3, a4, found)
      (old', found', due', b2, b3, b4, b5) same =
    let e : old.id ≡ old'.id = cc (a3, b3) in
    let e' : start now ttl w old ≡ old' = cc (rw e at found) in
    ground (arith, ap (λ (r : Job). r.status) e')

-- Two claims in a row, at whatever times, by whatever workers and leases, never return the same job.
pub claim-claim_ne :
    (now ttl now' ttl' : ℕ) (w w' : String) (q : Queue) (i j : Job)
    → Keyed job_id q
    → (claim now ttl w q).0 ≡ some i
    → (claim now' ttl' w' (claim now ttl w q).1).0 ≡ some j
    → i.id ≢ j.id
claim-claim_ne now ttl now' ttl' w w' q i j k h h' =
    not-Claimed_again now ttl now' ttl' w w' q (claim now ttl w q).1
      (claim now' ttl' w' (claim now ttl w q).1).1 i j (rw h at (claim_lem now ttl w q k))
      (rw h' at (claim_lem now' ttl' w' (claim now ttl w q).1 (claim-Keyed now ttl w q k)))
