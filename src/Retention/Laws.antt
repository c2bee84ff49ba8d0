-- ===== src/Retention/Laws.antt =====
-- retention.py: what a sweep leaves.
use mathlib.Core.List.{Memᴰ}
use memoratum.Base.{
  ℕ, ◌-◌, ◌*◌, ◌<◌, ◌≡◌, refl, ap, ◌∙◌, subst, String, Bool, true, false, Option, none, some, List,
  [], ◌∷◌, ◌++◌, ◌==◌, eq_iff, is_some, All, All-imp, arith,
}
use memoratum.Table.{select_where, find_where, delete_where}
use memoratum.Table.Laws.{All-delete_where}
use memoratum.Table.Rows.{select_where-delete_where, members, find_where-delete_where}
use memoratum.Outbox.{Delivery, DomainEvent}
use memoratum.Keys.{ApiKey, RevokedKey, KeyStore, has_hash, revokes, lookup_key}
use memoratum.Retention.{
  Timed, TableName, webhook_deliveries, domain_events, memory_history, jobs, share_links,
  idempotency_keys, audit_events, revoked_keys, sweep_order, is_outstanding, is_active, delivery_of,
  old_delivery, old_event, old_job, old_revocation, sweep_table, Policies, cutoff_days, sweep_one,
  sweep_all, sweep,
}

module _ {A : Type 0} (p q : A → Bool) where
  find_where-delete_where-none :
      (rs : List A)
      → All (λ r. q r ≡ true → p r ≡ true) rs
      → find_where q (delete_where p rs) ≡ none
  unfolding find_where delete_where
  find_where-delete_where-none [] gone = refl
  find_where-delete_where-none (r ∷ rs) gone =
      ground (arith, gone.0, find_where-delete_where-none rs gone.1)

module _ {P : Timed → Type 0}
    (step : (cutoff : ℕ) (n : TableName) (t : Timed) → P t → P (sweep_table cutoff n t).1) where
  sweep_one_induction :
      (now : ℕ) (dry_run : Bool) (n : TableName) (days : Option ℕ) (t : Timed)
      → P t
      → P (sweep_one now dry_run n days t).1
  unfolding sweep_one
  sweep_one_induction now dry_run n none t h = h
  sweep_one_induction now true n (some days) t h = h
  sweep_one_induction now false n (some days) t h = step (now - days * 86400) n t h

  sweep_all_induction :
      (now : ℕ) (dry_run : Bool) (policies : Policies) (days : Option ℕ) (ns : List TableName)
      (t : Timed)
      → P t
      → P (sweep_all now dry_run policies days ns t).1
  unfolding sweep_all
  sweep_all_induction now dry_run policies days [] t h = h
  sweep_all_induction now dry_run policies days (n ∷ ns) t h =
      sweep_all_induction now dry_run policies days ns _
        (sweep_one_induction now dry_run n (cutoff_days policies days n) t h)

-- The work that is still owed.
abbrev pub SameWork : Timed → Timed → Type 0
SameWork t u =
    (select_where is_outstanding u.deliveries ≡ select_where is_outstanding t.deliveries)
    × (select_where is_active u.jobs ≡ select_where is_active t.jobs)

sweep_table-SameWork :
    (t : Timed) (cutoff : ℕ) (n : TableName) (u : Timed)
    → SameWork t u
    → SameWork t (sweep_table cutoff n u).1
unfolding sweep_table
sweep_table-SameWork t cutoff webhook_deliveries u (a, b) = (
  select_where-delete_where (old_delivery cutoff) is_outstanding (λ d h. ground (arith, h))
        u.deliveries
      ∙ a,
  b,
)
sweep_table-SameWork t cutoff domain_events u h = h
sweep_table-SameWork t cutoff memory_history u h = h
sweep_table-SameWork t cutoff jobs u (a, b) =
    (a, select_where-delete_where (old_job cutoff) is_active (λ j h. ground (arith, h)) u.jobs ∙ b)
sweep_table-SameWork t cutoff share_links u h = h
sweep_table-SameWork t cutoff idempotency_keys u h = h
sweep_table-SameWork t cutoff audit_events u h = h
sweep_table-SameWork t cutoff revoked_keys u h = h

-- Whatever the policies, the override and the time, a sweep keeps every waiting delivery and every queued or running
-- job, in their order.
pub sweep-SameWork :
    (now : ℕ) (dry_run : Bool) (policies : Policies) (days : Option ℕ) (t : Timed)
    → SameWork t (sweep now dry_run policies days t).1
unfolding sweep
sweep-SameWork now dry_run policies days t =
    sweep_all_induction {P = SameWork t} (sweep_table-SameWork t) now dry_run policies days
      sweep_order t (refl, refl)

-- Every delivery has its event.
abbrev pub has_event_id : String → DomainEvent → Bool
has_event_id i e = e.id == i

abbrev pub IsLinked : Timed → Type 0
IsLinked t =
    All (λ (d : Delivery). is_some (find_where (has_event_id d.event_id) t.events) ≡ true)
      t.deliveries

found_delivery :
    (d : Delivery) (e : DomainEvent) (ds : List Delivery)
    → Memᴰ d ds
    → (e.id == d.event_id) ≡ true
    → is_some (find_where (delivery_of e) ds) ≡ true
unfolding find_where
found_delivery d e [] m h = elim m [ ]
found_delivery d e (c ∷ ds) (Memᴰ.head u) h =
    subst (λ (x : Delivery). is_some (find_where (delivery_of e) (x ∷ ds)) ≡ true) u
      (ground (arith, h, eq_iff e.id d.event_id, eq_iff d.event_id e.id))
found_delivery d e (c ∷ ds) (Memᴰ.tail m) h = ground (arith, found_delivery d e ds m h)

linked_events :
    (cutoff : ℕ) (all : List Delivery) (es : List DomainEvent) (ds : List Delivery)
    → All (λ d. Memᴰ d all) ds
    → All (λ (d : Delivery). is_some (find_where (has_event_id d.event_id) es) ≡ true) ds
    → All
        (λ (d : Delivery).
          is_some (find_where (has_event_id d.event_id) (delete_where (old_event cutoff all) es))
          ≡ true)
        ds
linked_events cutoff all es [] m h = tt
linked_events cutoff all es (d ∷ ds) m h = (
  ap is_some (
        find_where-delete_where (old_event cutoff all) (has_event_id d.event_id)
          (λ e t. ground (arith, found_delivery d e all m.0 t)) es)
      ∙ h.0,
  linked_events cutoff all es ds m.1 h.1,
)

sweep_table-IsLinked :
    (cutoff : ℕ) (n : TableName) (t : Timed) → IsLinked t → IsLinked (sweep_table cutoff n t).1
unfolding sweep_table
sweep_table-IsLinked cutoff webhook_deliveries t h =
    All-delete_where
      (λ (d : Delivery). is_some (find_where (has_event_id d.event_id) t.events) ≡ true)
      (old_delivery cutoff) t.deliveries h
sweep_table-IsLinked cutoff domain_events t h =
    linked_events cutoff t.deliveries t.events t.deliveries (members t.deliveries) h
sweep_table-IsLinked cutoff memory_history t h = h
sweep_table-IsLinked cutoff jobs t h = h
sweep_table-IsLinked cutoff share_links t h = h
sweep_table-IsLinked cutoff idempotency_keys t h = h
sweep_table-IsLinked cutoff audit_events t h = h
sweep_table-IsLinked cutoff revoked_keys t h = h

-- If every delivery has its event before a sweep, every delivery that is left has it afterwards.
pub sweep-IsLinked :
    (now : ℕ) (dry_run : Bool) (policies : Policies) (days : Option ℕ) (t : Timed)
    → IsLinked t
    → IsLinked (sweep now dry_run policies days t).1
unfolding sweep
sweep-IsLinked now dry_run policies days t h =
    sweep_all_induction {P = IsLinked} sweep_table-IsLinked now dry_run policies days sweep_order t
      h

abbrev is_revocations : TableName → Bool
is_revocations revoked_keys = true
is_revocations _ = false

sweep_table-revoked :
    (cutoff : ℕ) (n : TableName) (t : Timed)
    → is_revocations n ≡ false
    → (sweep_table cutoff n t).1.revoked ≡ t.revoked
unfolding sweep_table
sweep_table-revoked cutoff webhook_deliveries t h = refl
sweep_table-revoked cutoff domain_events t h = refl
sweep_table-revoked cutoff memory_history t h = refl
sweep_table-revoked cutoff jobs t h = refl
sweep_table-revoked cutoff share_links t h = refl
sweep_table-revoked cutoff idempotency_keys t h = refl
sweep_table-revoked cutoff audit_events t h = refl
sweep_table-revoked cutoff revoked_keys t h = ground (arith, h)

sweep_one-revoked :
    (now : ℕ) (n : TableName) (days : Option ℕ) (t : Timed)
    → is_revocations n ≡ false
    → (sweep_one now false n days t).1.revoked ≡ t.revoked
unfolding sweep_one
sweep_one-revoked now n none t h = refl
sweep_one-revoked now n (some days) t h = sweep_table-revoked (now - days * 86400) n t h

-- The revocations are swept last, and once.
sweep_all-revoked :
    (now window : ℕ) (policies : Policies) (ns : List TableName) (t : Timed)
    → policies revoked_keys ≡ some window
    → All (λ n. is_revocations n ≡ false) ns
    → (sweep_all now false policies none (ns ++ revoked_keys ∷ []) t).1.revoked
      ≡ delete_where (old_revocation (now - window * 86400)) t.revoked
unfolding sweep_all cutoff_days sweep_one sweep_table
sweep_all-revoked now window policies [] t w h =
    ap (λ d. (sweep_one now false revoked_keys d t).1.revoked) w
sweep_all-revoked now window policies (n ∷ ns) t w h =
    sweep_all-revoked now window policies ns _ w h.1
    ∙ ap (delete_where (old_revocation (now - window * 86400)))
        (sweep_one-revoked now n (policies n) t h.0)

abbrev swept_before : List TableName
swept_before =
    webhook_deliveries ∷ domain_events ∷ memory_history ∷ jobs ∷ share_links ∷ idempotency_keys
    ∷ audit_events ∷ []

abbrev pub key_store : List ApiKey → Timed → KeyStore
key_store api t = record { api_keys = api; revoked_keys = t.revoked }

-- A sweep that is no probe and has no override forgets revocations and keeps the keys: once each revocation of an existing key is older than the window,
-- a lookup finds the key again after the sweep, though it found none before.
pub sweep-lookup_key :
    (sha256 : String → String) (raw : String) (now window : ℕ) (policies : Policies)
    (api : List ApiKey) (k : ApiKey) (r : RevokedKey) (t : Timed)
    → find_where (has_hash (sha256 raw)) api ≡ some k
    → find_where (revokes (sha256 raw)) t.revoked ≡ some r
    → policies revoked_keys ≡ some window
    → All
        (λ (s : RevokedKey). revokes (sha256 raw) s ≡ true → s.revoked_at < now - window * 86400)
        t.revoked
    → (lookup_key sha256 raw (key_store api t) ≡ none)
      × (lookup_key sha256 raw (key_store api (sweep now false policies none t).1) ≡ some k)
unfolding lookup_key sweep
sweep-lookup_key sha256 raw now window policies api k r t found gone w old = (
  rw gone refl,
  rw
      (
        sweep_all-revoked now window policies swept_before t w
            (refl, (refl, (refl, (refl, (refl, (refl, (refl, tt))))))),
        find_where-delete_where-none (old_revocation (now - window * 86400)) (revokes (sha256 raw))
            t.revoked
            (All-imp
              (λ (s : RevokedKey).
                revokes (sha256 raw) s ≡ true → s.revoked_at < now - window * 86400)
              (λ (s : RevokedKey).
                revokes (sha256 raw) s ≡ true → old_revocation (now - window * 86400) s ≡ true)
              (λ s f e. ground (arith, f e)) t.revoked old),
      )
      found,
)
