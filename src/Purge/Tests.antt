-- ===== src/Purge/Tests.antt =====
-- Purging and pruning a concrete database.
use memoratum.Base.{
  ℕ, String, ◌≡◌, ◌⊎◌, refl, true, Option, none, some, [], ◌∷◌, ◌==◌, arith, eq_iff,
}
use memoratum.Json.{end}
use memoratum.Table.{find_where, delete_where, update_where, select_where, count_where}
use memoratum.Keys.{ApiKey, new_key, lookup_key}
use memoratum.Access.{Project}
use memoratum.Memory.Tables.{Fact, Draw}
use memoratum.Documents.{Document, new_document}
use memoratum.Purge.{World, purged, Counts, purge_project}
use memoratum.Purge.Successors.{IsBlocked}
use memoratum.Purge.Erased.{IsErased, purge_project-IsErased}
use memoratum.Purge.Others.{SameRows, purge_project-SameRows, purge_project-lookup_key}
use memoratum.Purge.Prune.{
  IsPruned, pruned, integrity_error, is_past, expire_memories, prune_expired, prune_expired_lem,
}
use memoratum.Outbox.{Webhook}

abbrev document : String → String → Document
document i project = new_document i 1 (record {
  container_tag = "t";
  content = "text";
  custom_id = none;
  metadata = end;
  expires_at = none;
  org_id = some "o";
  project_id = some project;
})

abbrev project_row : String → Project
project_row i = record { id = i; org_id = "o"; deleting = true }

abbrev key : ApiKey
key = new_key "hash" 1 none (some "o") (some "p") "OWNER"

abbrev world : World
world = record {
  store = record {
    memories = [];
    history = [];
    facts = [];
    outbox = record {
      projects = "p" ∷ "q" ∷ [];
      webhooks = [];
      events = [];
      deliveries = [];
      jobs = [];
    };
  };
  documents = document "d" "p" ∷ document "e" "q" ∷ [];
  chunks = [];
  links = [];
  points = [];
  keys = record {
    api_keys = key ∷ [];
    revoked_keys = record { key_hash = "hash"; revoked_at = 2 } ∷ [];
  };
  entries = [];
  projects = project_row "p" ∷ project_row "q" ∷ [];
  members = [];
  usage = [];
  audit = [];
}

abbrev left : World
left = record world {
  store = record world.store { outbox = record world.store.outbox { projects = "q" ∷ [] } };
  documents = document "e" "q" ∷ [];
  keys = record { api_keys = key ∷ []; revoked_keys = [] };
  projects = project_row "q" ∷ [];
}

abbrev counts : Counts
counts = record { memories = 0; facts = 0; documents = 1; keys = 1; webhooks = 0 }

run : purge_project "p" (some "o") none world ≡ purged counts left
unfolding purge_project find_where delete_where update_where select_where count_where
run = refl

row_found : find_where (λ (q : Project). q.id == "p") world.projects ≡ some (project_row "p")
unfolding find_where
row_found = refl

purge_project-IsErased_example : IsErased "p" none left
purge_project-IsErased_example =
    purge_project-IsErased "p" (some "o") none world left counts (project_row "p") row_found run

purge_project-SameRows_example : SameRows "q" left world
purge_project-SameRows_example =
    purge_project-SameRows "p" (some "o") none world left counts (project_row "p") row_found run "q"
      (λ e. ground (arith, eq_iff "q" "p", e))

abbrev same_hash : String → String
same_hash raw = "hash"

purge_project-lookup_key_example : lookup_key same_hash "mm_key" left.keys ≡ some key
purge_project-lookup_key_example =
    purge_project-lookup_key same_hash "mm_key" "p" (some "o") none world left counts
      (project_row "p") key row_found run (unfold find_where in refl) refl

-- The fact `old` was closed by `new`, which has a time to live.
abbrev fact : String → Option String → Option ℕ → Fact
fact i successor expiry = record {
  id = i;
  container_tag = "t";
  subject = "s";
  predicate = "p";
  object = i;
  document_id = none;
  valid_from = 1;
  valid_to = some 2;
  superseded_by = successor;
  created_at = 1;
  metadata = end;
  expires_at = expiry;
  memory_type = "semantic";
  org_id = none;
  project_id = none;
}

abbrev aging : World
aging = record world {
  store = record world.store {
    facts = fact "old" (some "new") none ∷ fact "new" none (some 5) ∷ [];
  };
}

abbrev draws : String → Draw
draws i = record {
  memory = i;
  history = i;
  event = i;
  delivery = λ (w : Webhook). (w.id, w.id);
  now = 6;
}

abbrev digits : ℕ → String
digits n = ""

stays_expired : prune_expired same_hash draws digits 6 aging ≡ integrity_error
unfolding prune_expired find_where select_where delete_where
stays_expired = refl

prune_expired_lem_example :
    (IsBlocked (λ f. is_past 6 f.expires_at) aging.store.facts
      × (prune_expired same_hash draws digits 6 aging ≡ integrity_error))
    ⊎ (¬ (IsBlocked (λ f. is_past 6 f.expires_at) aging.store.facts)
        × (v : World) × (prune_expired same_hash draws digits 6 aging
            ≡ pruned 0
                (count_where (λ (f : Fact). is_past 6 f.expires_at) aging.store.facts)
                (count_where (λ (d : Document). is_past 6 d.expires_at) aging.documents)
                v)
        × IsPruned 6 v)
prune_expired_lem_example =
    prune_expired_lem same_hash draws digits 6 aging [] aging.store
      (unfold expire_memories select_where in refl)
