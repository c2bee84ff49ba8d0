-- ===== src/Jobs/LostClaim.antt =====
-- What the queue does when a worker dies with a claim, or goes on after its claim has lapsed.
use memoratum.Base.{
  ℕ, zero, suc, ◌+◌, ◌≤◌, ◌<◌, ◌≡◌, refl, ap, true, Option, none, some, List, [], ◌∷◌, String,
  arith, eq_refl, ◌∙◌, if◌then◌else◌,
}
use memoratum.Table.{select_where, find_where, update_where, order_by, first_row}
use memoratum.Table.Keyed.{Keyed, find_where-update_where}
use memoratum.Json.{Fields}
use memoratum.Jobs.{
  Job, Queue, queued, running, done, has_id, is_stale, claim, reap_stale, complete, cancel,
  cancel_row, is_cancellable,
}
use memoratum.Jobs.Claim.{job_id}
use memoratum.Jobs.Steps.{Op, claim_op, reap_op, apply, run, finish, complete_lem}
use memoratum.Jobs.Lease.{found_id, cancel_lem}

-- A worker claims, dies, and its lease of `ttl` runs out: `n` times over, from the time `now`.
abbrev pub crashes : ℕ → ℕ → ℕ → String → List Op
crashes zero now ttl w = []
crashes (suc n) now ttl w =
    claim_op now ttl w ∷ reap_op (now + ttl + 1) ∷ crashes n (now + ttl + 1) ttl w

claim_one :
    (now ttl : ℕ) (w : String) (j : Job)
    → j.status ≡ queued
    → j.run_after ≤ now
    → (k : Job) × ((claim now ttl w (j ∷ [])).1 ≡ k ∷ [])
      × (k.status ≡ running)
      × (k.lease_expires_at ≡ now + ttl)
      × (k.attempts ≡ j.attempts + 1)
      × (k.run_after ≡ j.run_after)
unfolding claim select_where order_by first_row update_where
claim_one now ttl w j s r = (
  record j {
    status = running;
    worker = some w;
    attempts = j.attempts + 1;
    lease_expires_at = now + ttl;
    heartbeat_at = some now;
    updated_at = now;
  },
  ground (arith, eq_refl j.id),
  refl,
  refl,
  refl,
  refl,
)

reap_one :
    (now : ℕ) (k : Job)
    → k.status ≡ running
    → k.lease_expires_at < now
    → (j : Job) × ((reap_stale now (k ∷ [])).1 ≡ j ∷ [])
      × (j.status ≡ queued)
      × (j.attempts ≡ k.attempts)
      × (j.run_after ≡ k.run_after)
unfolding reap_stale update_where
reap_one now k s l = (
  record k {
    status = queued;
    worker = none;
    lease_expires_at = 0;
    heartbeat_at = none;
    updated_at = now;
  },
  ground arith,
  refl,
  refl,
  refl,
)

claim_then_death :
    (now ttl : ℕ) (w : String) (j : Job)
    → j.status ≡ queued
    → j.run_after ≤ now
    → (l : Job) × ((reap_stale (now + ttl + 1) (claim now ttl w (j ∷ [])).1).1 ≡ l ∷ [])
      × (l.status ≡ queued)
      × (l.attempts ≡ j.attempts + 1)
      × (l.run_after ≡ j.run_after)
claim_then_death now ttl w j s r =
    let (k, c0, c1, c2, c3, c4) = claim_one now ttl w j s r in
    let (l, r0, r1, r2, r3) = reap_one (now + ttl + 1) k c1 (omega arith) in
    (l, ap (λ (q : Queue). (reap_stale (now + ttl + 1) q).1) c0 ∙ r0, r1, cc (r2, c3), cc (r3, c4))

-- A job that kills every worker that runs it is never given up: after any number of claims, deaths
-- and sweeps it is queued again, with one attempt more for each, because neither `claim` nor
-- `reap_stale` looks at the number of attempts.
pub crash_loop :
    (n now ttl : ℕ) (w : String) (j : Job)
    → j.status ≡ queued
    → j.run_after ≤ now
    → (k : Job) × (run (crashes n now ttl w) (j ∷ []) ≡ k ∷ [])
      × (k.status ≡ queued)
      × (k.attempts ≡ j.attempts + n)
unfolding run apply
crash_loop zero now ttl w j s r = (j, refl, s, omega arith)
crash_loop (suc n) now ttl w j s r =
    let (l, e, r1, r2, r3) = claim_then_death now ttl w j s r in
    let (m, i0, i1, i2) = crash_loop n (now + ttl + 1) ttl w l r1 (omega arith) in
    (m, ap (run (crashes n (now + ttl + 1) ttl w)) e ∙ i0, i1, omega arith)

completed :
    (later : ℕ) (i : String) (result : Option Fields) (q : Queue) (j : Job)
    → find_where (has_id i) q ≡ some j
    → find_where (has_id i) (complete later i result q) ≡ some (finish later result j)
completed later i result q j found = rw (complete_lem later i result q) (
    find_where-update_where job_id i (has_id i) (finish later result) (λ r. refl) q j found
    ∙ ground (arith, found_id i q j found))

-- An operator may cancel a running job whose lease has lapsed. If its worker completes the job
-- afterwards, the cancelled job becomes a finished one: `complete` does not ask whether the caller
-- still holds the claim.
pub complete-cancel :
    (now later : ℕ) (i : String) (result : Option Fields) (q : Queue) (j : Job)
    → Keyed job_id q
    → find_where (has_id i) q ≡ some j
    → is_stale now j ≡ true
    → (k : Job) × ((cancel now i q).0 ≡ true)
      × (find_where (has_id i) (complete later i result (cancel now i q).1) ≡ some k)
      × (k.status ≡ done)
complete-cancel now later i result q j keyed found stale =
    let (said, left) = cancel_lem now i q j keyed found in
    (
      finish later result (if is_cancellable now j then cancel_row now j else j),
      ground (arith, said),
      completed later i result (cancel now i q).1
          (if is_cancellable now j then cancel_row now j else j) left,
      refl,
    )
