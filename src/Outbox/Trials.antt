-- ===== src/Outbox/Trials.antt =====
-- webhooks.py: any number of attempts at a delivery.
use memoratum.Base.{
  ℕ, suc, ◌+◌, ◌≡◌, refl, ap, ◌∙◌, String, true, false, Option, some, List, [], ◌∷◌, arith, length,
  zero,
}
use memoratum.Table.{find_where}
use memoratum.Outbox.{Webhook, Delivery, waiting, dead, Outbox}
use memoratum.Outbox.Attempts.{
  Answer, has_webhook_id, delivery_row, is_settled, is_later, or_clock, conclude, proceed,
  deliver_delivery,
}
use memoratum.Outbox.Soundness.{
  delivery_at, accepts, Advanced, delivery_row_lem, last, early, conclude_lem, conclude-webhooks,
}

-- One call of `deliver_delivery`: what the network answers, the uuid for a job, `now` and the clock.
pub record Attempt : Type 0 where
  pub answer : Webhook → Delivery → Answer
  pub job_id : String
  pub now : Option ℕ
  pub clock : ℕ

module _ (rejected : ℕ → String) (max_bytes max_attempts : ℕ) where
  -- One attempt, as the transaction that it commits.
  abbrev pub attempt : String → Attempt → Outbox → Outbox
  attempt i a o =
      (deliver_delivery rejected max_bytes max_attempts a.answer a.job_id i a.now a.clock o).1

  attempt_lem :
      (i : String) (a : Attempt) (o : Outbox) (d : Delivery) (w : Webhook)
      → delivery_row i o ≡ some (d, w)
      → is_settled d.status ≡ false
      → is_later (or_clock a.now a.clock) d.next_attempt_at ≡ false
      → attempt i a o
        ≡ (conclude rejected max_bytes max_attempts a.job_id i a.clock
            (d.attempts + 1)
            (a.answer w d)
            o).1
  unfolding deliver_delivery proceed
  attempt_lem i a o d w h s l =
      ap (λ r. (proceed rejected max_bytes max_attempts a.answer a.job_id i a.now a.clock r o).1) h
      ∙ rw (s, l) refl

  -- An attempt at a delivery that is waiting and due, and whose webhook exists, counts one attempt. It has then
  -- succeeded exactly if the webhook accepts it, by a status from 200 to 299 with a body within the limit; else it is
  -- dead if this was the last attempt allowed, and waits 2 ^ attempt seconds, an hour at most, if not.
  pub attempt_outcome :
      (i : String) (a : Attempt) (o : Outbox) (d : Delivery) (w : Webhook)
      → delivery_at i o ≡ some d
      → find_where (has_webhook_id d.webhook_id) o.webhooks ≡ some w
      → is_settled d.status ≡ false
      → is_later (or_clock a.now a.clock) d.next_attempt_at ≡ false
      → Advanced max_attempts
          (accepts max_bytes (a.answer w d))
          a.clock
          d
          (delivery_at i (attempt i a o))
  attempt_outcome i a o d w h k s l =
      rw (attempt_lem i a o d w (delivery_row_lem i o d w h k) s l)
        (conclude_lem rejected max_bytes max_attempts a.job_id i a.clock (a.answer w d) o d h)

  abbrev pub attempts_at : String → List Attempt → Outbox → Outbox
  attempts_at i [] o = o
  attempts_at i (a ∷ ts) o = attempts_at i ts (attempt i a o)

  settled_once :
      (i : String) (a : Attempt) (o : Outbox) (d : Delivery) (w : Webhook)
      → delivery_row i o ≡ some (d, w)
      → is_settled d.status ≡ true
      → attempt i a o ≡ o
  unfolding deliver_delivery proceed
  settled_once i a o d w h s =
      ap (λ r. (proceed rejected max_bytes max_attempts a.answer a.job_id i a.now a.clock r o).1) h
      ∙ rw s refl

  -- A delivery of an existing webhook that has succeeded or is dead stays so: no attempts, whatever the network answers, change
  -- the outbox.
  pub settled_forever :
      (i : String) (ts : List Attempt) (o : Outbox) (d : Delivery) (w : Webhook)
      → delivery_row i o ≡ some (d, w)
      → is_settled d.status ≡ true
      → attempts_at i ts o ≡ o
  settled_forever i [] o d w h s = refl
  settled_forever i (a ∷ ts) o d w h s =
      ap (attempts_at i ts) (settled_once i a o d w h s) ∙ settled_forever i ts o d w h s

  -- Each attempt comes when the delivery is due, and the webhook does not accept it.
  abbrev pub AllRefused : String → List Attempt → Outbox → Type 0
  AllRefused i [] o = Unit
  AllRefused i (a ∷ ts) o =
      ((d : Delivery)
        → delivery_at i o ≡ some d
        → is_later (or_clock a.now a.clock) d.next_attempt_at ≡ false)
      × ((w : Webhook) (d : Delivery) → accepts max_bytes (a.answer w d) ≡ false)
      × AllRefused i ts (attempt i a o)

  -- A waiting delivery of an existing webhook that every attempt finds due and no webhook accepts is dead, with `max_attempts`
  -- attempts, after exactly as many attempts as it had left.
  pub gives_up :
      (n : ℕ) (i : String) (ts : List Attempt) (o : Outbox) (d : Delivery) (w : Webhook)
      → length ts ≡ suc n
      → d.attempts + suc n ≡ max_attempts
      → delivery_at i o ≡ some d
      → find_where (has_webhook_id d.webhook_id) o.webhooks ≡ some w
      → d.status ≡ waiting
      → AllRefused i ts o
      → (k : Delivery) × (delivery_at i (attempts_at i ts o) ≡ some k)
        × (k.status ≡ dead)
        × (k.attempts ≡ max_attempts)
  gives_up n i [] o d w l m h k s r = ground arith
  gives_up zero i (t ∷ []) o d w l m h k s r =
      let (e, f, c, st, nx, wh) =
        rw (r.1 w d) at (attempt_outcome i t o d w h k (rw s refl) (r.0 d h)) in
      (e, f, st ∙ last max_attempts (d.attempts + 1) (omega (arith, m)), omega (arith, c, m))
  gives_up zero i (t ∷ u ∷ ts) o d w l m h k s r = ground arith
  gives_up (suc n) i (t ∷ ts) o d w l m h k s r =
      let (e, f, c, st, nx, wh) =
        rw (r.1 w d) at (attempt_outcome i t o d w h k (rw s refl) (r.0 d h)) in
      gives_up n i ts (attempt i t o) e w (omega (arith, l)) (omega (arith, c, m)) f
        (rw
          (
            wh,
            attempt_lem i t o d w (delivery_row_lem i o d w h k) (rw s refl) (r.0 d h),
            conclude-webhooks rejected max_bytes max_attempts t.job_id i t.clock (d.attempts + 1)
                (t.answer w d) o,
          )
          k)
        (st ∙ early max_attempts (d.attempts + 1) (omega (arith, m))) r.2
