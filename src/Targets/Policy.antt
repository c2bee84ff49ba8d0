-- ===== src/Targets/Policy.antt =====
-- webhooks.py: a delivery dials public addresses only.
use memoratum.Base.{
  ℕ, String, Bool, true, false, Option, none, some, List, [], ◌∷◌, ◌≡◌, ◌≢◌, ap, subst, Bool-cases,
  inl, inr, All,
}
use memoratum.Targets.{
  v4, v6, unwrap_once, unwrap_turns, unwrap_v4_in_v6, Net, Families, Resolved, SocketEntry,
  is_public_address, is_public_ip, normalize_entry, add_entry, check_entries, some_entry,
  check_answer, validated_entries, carrying, resolve_target, onward, Target, normalize_webhook_url,
  resolve_webhook_target, connect_pinned,
}

module _ (net : Net) (names : Families) where
  abbrev pub IsPublic : SocketEntry → Type 0
  IsPublic e = is_public_ip net names e.address.host ≡ true

  -- What is accepted, if anything, is public.
  abbrev AllPublic : Option (List SocketEntry) → Type 0
  AllPublic none = Unit
  AllPublic (some es) = All IsPublic es

  add_entry-AllPublic :
      (o : Option SocketEntry) (r : Option (List SocketEntry))
      → AllPublic r
      → AllPublic (add_entry net names false o r)
  add_entry-AllPublic none r h = h
  add_entry-AllPublic (some e) none h = elim (Bool-cases (is_public_ip net names e.address.host)) [
    | inl p ↦ rw p tt
    | inr p ↦ rw p tt
  ]
  add_entry-AllPublic (some e) (some es) h =
      elim (Bool-cases (is_public_ip net names e.address.host)) [
        | inl p ↦ rw p (p, h)
        | inr p ↦ rw p tt
      ]

  check_entries-AllPublic :
      (p : ℕ) (rs : List Resolved) → AllPublic (check_entries net names false p rs)
  unfolding check_entries
  check_entries-AllPublic p [] = tt
  check_entries-AllPublic p (r ∷ rs) =
      add_entry-AllPublic (normalize_entry net names r p) (check_entries net names false p rs)
        (check_entries-AllPublic p rs)

  some_entry-AllPublic :
      (r : Option (List SocketEntry)) → AllPublic r → AllPublic (some_entry net names r)
  some_entry-AllPublic none h = tt
  some_entry-AllPublic (some []) h = tt
  some_entry-AllPublic (some (e ∷ es)) h = h

  check_answer-AllPublic :
      (p : ℕ) (o : Option (List Resolved)) → AllPublic (check_answer net names false p o)
  check_answer-AllPublic p none = tt
  check_answer-AllPublic p (some rs) =
      some_entry-AllPublic (check_entries net names false p rs) (check_entries-AllPublic p rs)

  validated_entries-AllPublic :
      (resolver : String → ℕ → Option (List Resolved)) (hostname : String) (p : ℕ)
      → AllPublic (validated_entries net names false resolver hostname p)
  unfolding validated_entries
  validated_entries-AllPublic resolver hostname p = check_answer-AllPublic p (resolver hostname p)

  -- The entries that an answer of `resolve_webhook_target` carries.
  entries_of : Option (Target × List SocketEntry) → Option (List SocketEntry)
  entries_of none = none
  entries_of (some (t, es)) = some es

  carrying-AllPublic :
      (t : Target) (o : Option (List SocketEntry))
      → AllPublic o
      → AllPublic (entries_of (carrying net names false t o))
  unfolding entries_of
  carrying-AllPublic t none h = tt
  carrying-AllPublic t (some es) h = h

  resolve_target-AllPublic :
      (resolver : String → ℕ → Option (List Resolved)) (o : Option Target)
      → AllPublic (entries_of (resolve_target net names false resolver o))
  unfolding entries_of
  resolve_target-AllPublic resolver none = tt
  resolve_target-AllPublic resolver (some t) =
      carrying-AllPublic t (validated_entries net names false resolver t.hostname t.port)
        (validated_entries-AllPublic resolver t.hostname t.port)

  resolved-AllPublic :
      (resolver : String → ℕ → Option (List Resolved)) (url : String)
      → AllPublic (entries_of (resolve_webhook_target net names false resolver url))
  unfolding resolve_webhook_target
  resolved-AllPublic resolver url =
      resolve_target-AllPublic resolver (normalize_webhook_url net names false url)

  connect_pinned-IsPublic :
      (dial : SocketEntry → Bool) (es : List SocketEntry) (e : SocketEntry)
      → All IsPublic es
      → connect_pinned dial es ≡ some e
      → IsPublic e
  unfolding connect_pinned
  connect_pinned-IsPublic dial [] e h k = absurd (no_entry k)
    where
      no_entry : {x : SocketEntry} → none ≢ some x
      no_entry q = cc
  connect_pinned-IsPublic dial (d ∷ es) e h k = elim (Bool-cases (dial d)) [
    | inl p ↦ subst IsPublic (same (rw p at k)) h.0
    | inr p ↦ connect_pinned-IsPublic dial es e h.1 (rw p at k)
  ]
    where
      same : {x y : SocketEntry} → some x ≡ some y → x ≡ y
      same q = cc

  -- Without the policy for development, whatever address a delivery connects to is public.
  pub delivery-IsPublic :
      (resolver : String → ℕ → Option (List Resolved)) (dial : SocketEntry → Bool) (url : String)
      (t : Target) (es : List SocketEntry) (e : SocketEntry)
      → resolve_webhook_target net names false resolver url ≡ some (t, es)
      → connect_pinned dial es ≡ some e
      → IsPublic e
  unfolding entries_of
  delivery-IsPublic resolver dial url t es e h k =
      connect_pinned-IsPublic dial es e
        (subst AllPublic (ap entries_of h) (resolved-AllPublic resolver url)) k

-- An address of IPv6 that carries one of IPv4 is judged by the address that it carries.
pub unwrap_v4_in_v6-carried :
    (net : Net) (names : Families) (n k : ℕ)
    → unwrap_once (v6 n) ≡ some (v4 k)
    → is_public_address net names (unwrap_v4_in_v6 (v6 n)) ≡ is_public_address net names (v4 k)
unfolding unwrap_v4_in_v6 unwrap_turns
unwrap_v4_in_v6-carried net names n k h =
    ap (λ o. is_public_address net names (onward (v6 n) (unwrap_turns 3) o)) h
