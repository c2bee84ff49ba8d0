-- ===== src/Idempotency/Tests.antt =====
-- A key used twice.
use memoratum.Base.{◌≡◌, refl, List, [], ◌∷◌, some, ◌==◌, if◌then◌else◌, arith}
use memoratum.Json.{Json}
use memoratum.Table.{find_where, delete_where}
use memoratum.Idempotency.{
  Entry, claim_row, claimed, conflict, busy, replay, claim_idempotency, complete_idempotency,
  new_entry,
}
use memoratum.Idempotency.Protocol.{claim-claim_idempotency, complete-claim_idempotency}

abbrev old_entry : Entry
old_entry = new_entry 10 "owner:k" "key" "h0" 60

-- The old row of the key has expired by the time of the claim.
claimed_again : (claim_idempotency 100 "owner:k" "key" "h1" 60 (old_entry ∷ [])).0.status ≡ claimed
unfolding claim_idempotency claim_row find_where delete_where
claimed_again = refl

claim-claim_idempotency_example :
    (claim_idempotency 120 "owner:k" "key" "h2" 60
      (claim_idempotency 100 "owner:k" "key" "h1" 60 (old_entry ∷ [])).1).0.status
    ≡ (if "h1" == "h2" then busy else conflict)
claim-claim_idempotency_example =
    claim-claim_idempotency 100 "owner:k" "key" "h1" 60 (old_entry ∷ []) claimed_again 120 "h2" 60
      (omega arith)

complete-claim_idempotency_example :
    (t : List Entry) × (complete_idempotency "owner:k" "key" "h1" Json.null
        (some "j")
        (claim_idempotency 100 "owner:k" "key" "h1" 60 (old_entry ∷ [])).1
      ≡ some t)
    × ((claim_idempotency 120 "owner:k" "key" "h1" 60 t).0 ≡ record {
      status = replay;
      request_hash = "h1";
      response = some Json.null;
      job_id = some "j";
      scope = "owner:k";
      key = "key";
    })
complete-claim_idempotency_example =
    complete-claim_idempotency 100 "owner:k" "key" "h1" 60 (old_entry ∷ []) claimed_again Json.null
      (some "j") 120 "h1" 60 (omega arith)
