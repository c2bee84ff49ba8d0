-- ===== src/Purge/Erased.antt =====
-- db.py: what `purge_project` leaves of a project, of the other projects and of the keys.
use memoratum.Base.{
  String, Bool, true, false, ◌&&◌, not, Option, none, some, List, [], ◌∷◌, ◌==◌, ◌≡◌, ◌≢◌, refl,
  sym, ap, ◌∙◌, subst, Bool-cases, inl, inr, All, is_some, opt_eq, if◌then◌else◌,
}
use memoratum.Table.{find_where, delete_where}
use memoratum.Table.Laws.{All-update_where}
use memoratum.Keys.{ApiKey}
use memoratum.Access.{Project}
use memoratum.Memory.Tables.{Memory, Fact}
use memoratum.Purge.{
  World, Purged, purged, value_error, integrity_error, Counts, forget_fact, forget_document,
  forget_source, owns, is_purged_job, drop_key, drop_keys, project_keys, purge_rest, purge_row,
  purge_project, delete_memories, delete_facts, without_facts, delete_documents, delete_webhooks,
  delete_events, delete_project, remove_project, counts_of, finish_purge, is_blocked,
}

pub delete_where-none {ℓ} :
    {A : Type ℓ} (p : A → Bool) (rs : List A) → All (λ r. p r ≡ false) (delete_where p rs)
unfolding delete_where
delete_where-none p [] = tt
delete_where-none p (r ∷ rs) = elim (Bool-cases (p r)) [
  | inl e ↦ rw e (delete_where-none p rs)
  | inr e ↦ rw e (e, delete_where-none p rs)
]

-- No row is left that the project owns, but for the job that purges it.
abbrev pub IsErased : String → Option String → World → Type 0
IsErased project preserved w =
    All (λ m. owns project m.project_id ≡ false) w.store.memories
    × All (λ f. owns project f.project_id ≡ false) w.store.facts
    × All (λ d. owns project d.project_id ≡ false) w.documents
    × All (λ v. owns project v.project_id ≡ false) w.points
    × All (λ u. (u.project_id == project) ≡ false) w.usage
    × All (λ a. owns project a.project_id ≡ false) w.audit
    × All (λ m. (m.project_id == project) ≡ false) w.members
    × All (λ q. (q.id == project) ≡ false) w.projects
    × All (λ h. (h.project_id == project) ≡ false) w.store.outbox.webhooks
    × All (λ e. (e.project_id == project) ≡ false) w.store.outbox.events
    × All (λ j. is_purged_job project preserved j ≡ false) w.store.outbox.jobs

purge_rest-IsErased :
    (project : String) (preserved : Option String) (w : World)
    → All (λ m. owns project m.project_id ≡ false) w.store.memories
    → All (λ f. owns project f.project_id ≡ false) w.store.facts
    → IsErased project preserved (purge_rest project preserved w)
unfolding purge_rest delete_documents delete_project delete_webhooks delete_events remove_project
purge_rest-IsErased project preserved w h k = (
  All-update_where (λ (m : Memory). owns project m.project_id ≡ false) _ forget_document
      (λ m _ x. x) w.store.memories h,
  All-update_where (λ (f : Fact). owns project f.project_id ≡ false) _ forget_source (λ m _ x. x)
      w.store.facts k,
  delete_where-none _ w.documents,
  delete_where-none _ w.points,
  delete_where-none _ w.usage,
  delete_where-none _ w.audit,
  delete_where-none _ _,
  delete_where-none _ w.projects,
  delete_where-none _ _,
  delete_where-none _ w.store.outbox.events,
  delete_where-none _ w.store.outbox.jobs,
)

abbrev pub of_project : String → Fact → Bool
of_project project f = owns project f.project_id

-- The tables in front of the deletion of the facts.
abbrev pub cleared : String → World → World
cleared project w =
    delete_memories (λ m. owns project m.project_id) (drop_keys (project_keys project w) w)

not_purged : {c : Counts} {w : World} → integrity_error ≢ purged c w
not_purged h = cc

not_refused : {c : Counts} {w : World} → value_error ≢ purged c w
not_refused h = cc

result_of : Purged → World → World
result_of (purged c w) v = w
result_of value_error v = v
result_of integrity_error v = v

finish_purge-purged :
    (project : String) (preserved : Option String) (c d : Counts) (o : Option World) (v : World)
    → finish_purge project preserved c o ≡ purged d v
    → (u : World) × (o ≡ some u) × (purge_rest project preserved u ≡ v)
unfolding result_of
finish_purge-purged project preserved c d none v h = absurd (not_purged h)
finish_purge-purged project preserved c d (some u) v h = (u, refl, ap (λ x. result_of x v) h)

guarded : (b : Bool) (x u : World) → (if b then none else some x) ≡ some u → x ≡ u
guarded true x u h = absurd (no_world h)
  where
    no_world : {w : World} → none ≢ some w
    no_world e = cc
guarded false x u h = ap (or_world x) h
  where
    or_world : World → Option World → World
    or_world w none = w
    or_world w (some v) = v

delete_facts-some :
    (p : Fact → Bool) (w u : World) → delete_facts p w ≡ some u → without_facts p w ≡ u
unfolding delete_facts
delete_facts-some p w u h = guarded (is_blocked p w.store.facts) (without_facts p w) u h

-- A purge that succeeds on an existing project is the run of all of its statements.
pub purge_project-steps :
    (project : String) (org preserved : Option String) (w v : World) (c : Counts) (row : Project)
    → find_where (λ q. q.id == project) w.projects ≡ some row
    → purge_project project org preserved w ≡ purged c v
    → purge_rest project preserved (without_facts (of_project project) (cleared project w)) ≡ v
unfolding purge_project purge_row
purge_project-steps project org preserved w v c row f h =
    let step = rw f at h in
    elim (Bool-cases (is_some org && not (opt_eq org (some row.org_id)))) [
      | inl e ↦ absurd (not_refused (rw e at step))
      | inr e ↦
          let before = cleared project w in
          let (u, k, r) =
            finish_purge-purged project preserved (counts_of project w) c
              (delete_facts (of_project project) before) v (rw e at step) in
          ap (purge_rest project preserved) (delete_facts-some (of_project project) before u k) ∙ r
    ]

drop_keys-store : (ks : List ApiKey) (w : World) → (drop_keys ks w).store ≡ w.store
unfolding drop_keys
drop_keys-store [] w = refl
drop_keys-store (k ∷ ks) w = drop_keys-store ks (drop_key k w)

drop_keys-api_keys :
    (ks : List ApiKey) (w : World) → (drop_keys ks w).keys.api_keys ≡ w.keys.api_keys
unfolding drop_keys
drop_keys-api_keys [] w = refl
drop_keys-api_keys (k ∷ ks) w = drop_keys-api_keys ks (drop_key k w)

module _ (project : String) (org preserved : Option String) (w v : World) (c : Counts)
    (row : Project) (found : find_where (λ q. q.id == project) w.projects ≡ some row)
    (done : purge_project project org preserved w ≡ purged c v) where
  -- A purge that succeeds leaves no row of the project, but for the job that runs it.
  pub purge_project-IsErased : IsErased project preserved v
  unfolding delete_memories
  purge_project-IsErased =
      let before = cleared project w in
      let memories =
        delete_where-none (λ (m : Memory). owns project m.project_id)
          (drop_keys (project_keys project w) w).store.memories in
      subst (IsErased project preserved)
        (purge_project-steps project org preserved w v c row found done)
        (purge_rest-IsErased project preserved (without_facts (of_project project) before)
          (All-update_where (λ (m : Memory). owns project m.project_id ≡ false) _ forget_fact
            (λ m _ x. x) before.store.memories memories)
          (delete_where-none (of_project project) before.store.facts))

  -- The keys of the project are not deleted, and neither are any others.
  pub purge_project-api_keys : v.keys.api_keys ≡ w.keys.api_keys
  unfolding delete_memories purge_rest delete_documents delete_project
  purge_project-api_keys =
      ap (λ (x : World). x.keys.api_keys)
        (sym (purge_project-steps project org preserved w v c row found done))
      ∙ drop_keys-api_keys (project_keys project w) w
