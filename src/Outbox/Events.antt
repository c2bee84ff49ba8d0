-- ===== src/Outbox/Events.antt =====
-- webhooks.py, `record_event`: what one event adds to the outbox.
use mathlib.Core.List.{map-append}
use memoratum.Base.{
  ℕ, ◌≡◌, refl, ap, sym, ◌∙◌, String, Bool, true, false, ◌&&◌, Option, some, List, [], ◌∷◌, ◌++◌,
  map, append_assoc, append-nil, arith, ◌==◌, is_some, Bool-cases, inl, inr,
}
use memoratum.Json.{Fields}
use memoratum.Table.{select_where, find_where}
use memoratum.Jobs.{Job, Status, queued}
use memoratum.Outbox.{
  EventType, Webhook, Delivery, Outbox, event_payload, delivery_payload, has_event, fresh_delivery,
  deliver_to, deliver_all, record_event, subscribes, new_event, add_event, is_supported,
}

-- What a worker sees of a job.
abbrev pub work_item : Job → String × Fields × Status × ℕ
work_item j = (j.kind, j.payload, j.status, j.run_after)

abbrev pub item_of : (Webhook → String × String) → ℕ → Webhook → String × Fields × Status × ℕ
item_of fresh now w = ("webhook_delivery", delivery_payload (fresh w).0, queued, now)

module _ (fresh : Webhook → String × String) (event_id : String) (now : ℕ) (p : String)
    (event : EventType) (memory : Option String) (payload : Fields) where
  subscribed : List Webhook → List Webhook
  subscribed = select_where (λ w. has_event event w.event_types)

  to_row : Webhook → Delivery
  to_row w = fresh_delivery (fresh w).0 event_id p event memory payload now w

  -- One webhook of the loop.
  deliver_to-yes :
      (w : Webhook) (o : Outbox)
      → has_event event w.event_types ≡ true
      → ((deliver_to fresh event_id now p event memory payload w o).deliveries
          ≡ o.deliveries ++ to_row w ∷ [])
        × (map work_item (deliver_to fresh event_id now p event memory payload w o).jobs
            ≡ map work_item o.jobs ++ item_of fresh now w ∷ [])
        × ((deliver_to fresh event_id now p event memory payload w o).events ≡ o.events)
  unfolding deliver_to to_row
  deliver_to-yes w o e = rw (e, deliver_to) (refl, map-append work_item o.jobs (_ ∷ []), refl)

  deliver_to-no :
      (w : Webhook) (o : Outbox)
      → has_event event w.event_types ≡ false
      → deliver_to fresh event_id now p event memory payload w o ≡ o
  unfolding deliver_to
  deliver_to-no w o e = rw (e, deliver_to) refl

  Delivered : List Webhook → Outbox → Outbox → Type 0
  Delivered ws o o' =
      (o'.deliveries ≡ o.deliveries ++ map to_row (subscribed ws))
      × (map work_item o'.jobs ≡ map work_item o.jobs ++ map (item_of fresh now) (subscribed ws))
      × (o'.events ≡ o.events)

  deliver_all_lem :
      (ws : List Webhook) (o : Outbox)
      → Delivered ws o (deliver_all fresh event_id now p event memory payload ws o)
  unfolding deliver_all subscribed select_where Delivered
  deliver_all_lem [] o =
      (sym (append-nil o.deliveries), sym (append-nil (map work_item o.jobs)), refl)
  deliver_all_lem (w ∷ ws) o =
      let next = deliver_to fresh event_id now p event memory payload w o in
      let rest = deliver_all_lem ws next in
      elim (Bool-cases (has_event event w.event_types)) [
        | inl e ↦ rw e (
          rest.0
              ∙ ap (λ xs. xs ++ map to_row (subscribed ws)) (deliver_to-yes w o e).0
              ∙ append_assoc o.deliveries (to_row w ∷ []) (map to_row (subscribed ws)),
          rest.1
              ∙ ap (λ xs. xs ++ map (item_of fresh now) (subscribed ws)) (deliver_to-yes w o e).1
              ∙ append_assoc (map work_item o.jobs) (item_of fresh now w ∷ [])
                  (map (item_of fresh now) (subscribed ws)),
          rest.2 ∙ (deliver_to-yes w o e).2,
        )
        | inr e ↦ rw e (
          rest.0
              ∙ ap (λ (x : Outbox). x.deliveries ++ map to_row (subscribed ws))
                  (deliver_to-no w o e),
          rest.1
              ∙ ap (λ (x : Outbox). map work_item x.jobs ++ map (item_of fresh now) (subscribed ws))
                  (deliver_to-no w o e),
          rest.2 ∙ ap (λ (x : Outbox). x.events) (deliver_to-no w o e),
        )
      ]

-- The webhooks that the event goes to.
abbrev pub receivers : String → EventType → List Webhook → List Webhook
receivers project event = select_where (subscribes project event)

select_where-select_where :
    (p q : Webhook → Bool) (ws : List Webhook)
    → select_where q (select_where p ws) ≡ select_where (λ w. p w && q w) ws
unfolding select_where
select_where-select_where p q [] = refl
select_where-select_where p q (w ∷ ws) = ground (arith, select_where-select_where p q ws)

select_where_ext :
    (p q : Webhook → Bool)
    → ((w : Webhook) → p w ≡ q w)
    → (ws : List Webhook) → select_where p ws ≡ select_where q ws
unfolding select_where
select_where_ext p q h [] = refl
select_where_ext p q h (w ∷ ws) = ground (arith, h w, select_where_ext p q h ws)

and_assoc : (a b c : Bool) → (a && b) && c ≡ a && b && c
and_assoc true b c = refl
and_assoc false b c = refl

receivers_lem :
    (project : String) (event : EventType) (ws : List Webhook)
    → select_where
        (λ (w : Webhook). has_event event w.event_types)
        (select_where (λ (w : Webhook). (w.project_id == project) && w.is_active) ws)
      ≡ receivers project event ws
receivers_lem project event ws =
    select_where-select_where _ _ ws
    ∙ select_where_ext _ _
        (λ w. and_assoc (w.project_id == project) w.is_active (has_event event w.event_types)) ws

-- What an event does to the outbox.
abbrev pub Recorded :
    (Webhook → String × String)
    → String
    → ℕ
    → String
    → EventType
    → Option String
    → Fields
    → Outbox
    → Outbox
    → Type 0
Recorded fresh event_id now project event memory details o o' =
    let payload = event_payload event memory details in
    let ws = receivers project event o.webhooks in
    (o'.events ≡ o.events ++ new_event event_id project event memory payload now ∷ [])
    × (o'.deliveries
        ≡ o.deliveries
          ++ map (λ w. fresh_delivery (fresh w).0 event_id project event memory payload now w) ws)
    × (map work_item o'.jobs ≡ map work_item o.jobs ++ map (item_of fresh now) ws)

-- A supported event of an existing project is recorded as one event, and in the same transaction as one
-- waiting delivery and one queued job, due at once, for each active webhook of the project that subscribes
-- to it, in the order of the webhooks; nothing else is added to the events, the deliveries and the jobs.
pub record_event_lem :
    (fresh : Webhook → String × String) (event_id : String) (now : ℕ) (project : String)
    (event : EventType) (memory : Option String) (details : Fields) (o : Outbox)
    → is_supported event ≡ true
    → is_some (find_where (λ q. q == project) o.projects) ≡ true
    → (o' : Outbox) × (record_event fresh event_id now (some project) event memory details o
        ≡ some (some event_id, o'))
      × Recorded fresh event_id now project event memory details o o'
unfolding record_event Delivered subscribed to_row
record_event_lem fresh event_id now project event memory details o s f =
    let payload = event_payload event memory details in
    let active =
      select_where (λ (w : Webhook). (w.project_id == project) && w.is_active) o.webhooks in
    let o₁ = add_event (new_event event_id project event memory payload now) o in
    let all = deliver_all_lem fresh event_id now project event memory payload active o₁ in
    let same = receivers_lem project event o.webhooks in
    (
      deliver_all fresh event_id now project event memory payload active o₁,
      rw (s, f, record_event) refl,
      (
        all.2,
        all.0
            ∙ ap
                (λ ws.
                  o.deliveries
                  ++ map
                      (λ w. fresh_delivery (fresh w).0 event_id project event memory payload now w)
                      ws)
                same,
        all.1 ∙ ap (λ ws. map work_item o.jobs ++ map (item_of fresh now) ws) same,
      ),
    )
