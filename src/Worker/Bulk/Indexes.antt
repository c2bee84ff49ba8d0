-- ===== src/Worker/Bulk/Indexes.antt =====
-- worker.py: an item keeps the index of its operation, whatever becomes of it.
use memoratum.Base.{
  ℕ, String, Bool, true, false, ◌||◌, Option, none, some, List, ◌==◌, ◌≡◌, refl, ◌∙◌, arith,
  Bool-cases, inl, inr, eq_iff,
}
use memoratum.Json.{Json, Fields, end, field, num, str, bool, get_field}
use memoratum.Memory.Text.{set_field}
use memoratum.Memory.Tables.{
  Memory, Store, Result, ok, error, Failure, missing, invalid, get_memory,
}
use memoratum.Memory.Linked.{Report}
use memoratum.Worker.Bulk.{
  BulkOperation, Payload, Vectors, ItemDraw, item_status, failed_with, failed_as, after_vectors,
  act, carry_out, after_removal, act_found, act_on, action_of, item_fields, run_item, updated_item,
  deleted_item, removed, is_outside, indexing, removing,
}

get_field-set_field :
    (j k : String) (v : Json) (f : Fields)
    → (k == j) ≡ false
    → get_field j (set_field k v f) ≡ get_field j f
unfolding get_field set_field
get_field-set_field j k v end e = ground (arith, e)
get_field-set_field j k v (field i w f) e =
    ground (arith, e, eq_iff i k, eq_iff i j, eq_iff k j, get_field-set_field j k v f e)

abbrev pub index_of : Fields → Option Json
index_of f = get_field "index" f

kept :
    (k : String) (v : Json) (f : Fields)
    → (k == "index") ≡ false
    → index_of (set_field k v f) ≡ index_of f
kept k v f e = get_field-set_field "index" k v f e

failed_with-index : (e : String) (f : Fields) → index_of (failed_with e f) ≡ index_of f
failed_with-index e f =
    kept "error" (str e) (item_status "failed" f) refl ∙ kept "status" (str "failed") f refl

failed_as-index : (e : Failure) (f : Fields) → index_of (failed_as e f) ≡ index_of f
failed_as-index missing f = kept "status" (str "not_found") f refl
failed_as-index invalid f = failed_with-index "ValueError" f

after_vectors-index :
    (draw : ItemDraw) (m : Memory) (o : Option String) (f : Fields) (s : Store)
    → index_of (after_vectors draw m o f s).0 ≡ index_of f
unfolding after_vectors
after_vectors-index draw m none f s = refl
after_vectors-index draw m (some e) f s =
    kept "vector_error" (str e) (item_status "completed_with_vector_error" f) refl
    ∙ kept "status" (str "completed_with_vector_error") f refl

module _ (sha256 : String → String) (payload : Payload) (vectors : Option Vectors) where
  updated_item-index :
      (draw : ItemDraw) (f : Fields) (s : Store) (r : Result Memory × Store)
      → index_of (updated_item sha256 payload vectors draw f s r).0 ≡ index_of f
  updated_item-index draw f s (error e, t) = failed_as-index e f
  updated_item-index draw f s (ok m, t) =
      after_vectors-index draw m (indexing sha256 payload vectors m) (item_status "completed" f) t
      ∙ kept "status" (str "completed") f refl

  after_removal-index :
      (draw : ItemDraw) (m : Memory) (o : Option (List String)) (f : Fields) (t : Store)
      → index_of (after_removal sha256 payload vectors draw m o f t).0 ≡ index_of f
  after_removal-index draw m none f t = kept "status" (str "not_found") f refl
  after_removal-index draw m (some ids) f t =
      after_vectors-index draw m (removing sha256 payload vectors ids) f t

  deleted_item-index :
      (draw : ItemDraw) (m : Memory) (f : Fields) (report : Report) (t : Store)
      → index_of (deleted_item sha256 payload vectors draw m f report t).0 ≡ index_of f
  deleted_item-index draw m f report t =
      let d = set_field "deleted" (bool report.deleted) (item_status "completed" f) in
      after_removal-index draw m report.deleted_ids d t
      ∙ kept "deleted" (bool report.deleted) (item_status "completed" f) refl
      ∙ kept "status" (str "completed") f refl

  removed-index :
      (draw : ItemDraw) (m : Memory) (f : Fields) (s : Store) (r : Result (Option (Report × Store)))
      → index_of (removed sha256 payload vectors draw m f s r).0 ≡ index_of f
  removed-index draw m f s (error e) = failed_as-index e f
  removed-index draw m f s (ok none) = failed_with-index "RuntimeError" f
  removed-index draw m f s (ok (some (report, t))) = deleted_item-index draw m f report t

  carry_out-index :
      (draw : ItemDraw) (op : BulkOperation) (deletes : Bool) (m : Memory) (f : Fields) (s : Store)
      → index_of (carry_out sha256 payload vectors draw op deletes m f s).0 ≡ index_of f
  unfolding carry_out
  carry_out-index draw op false m f s = updated_item-index draw f s _
  carry_out-index draw op true m f s = removed-index draw m f s _

  act-index :
      (draw : ItemDraw) (op : BulkOperation) (deletes : Bool) (m : Memory) (f : Fields) (s : Store)
      → index_of (act sha256 payload vectors draw op deletes m f s).0 ≡ index_of f
  unfolding act
  act-index draw op deletes m f s = elim (Bool-cases (is_outside payload m)) [
    | inl e ↦ rw e (kept "status" (str "not_found") f refl)
    | inr e ↦ rw e (carry_out-index draw op deletes m f s)
  ]

  act_found-index :
      (draw : ItemDraw) (op : BulkOperation) (deletes : Bool) (r : Result Memory) (f : Fields)
      (s : Store)
      → index_of (act_found sha256 payload vectors draw op deletes r f s).0 ≡ index_of f
  act_found-index draw op deletes (error e) f s = failed_as-index e f
  act_found-index draw op deletes (ok m) f s = act-index draw op deletes m f s

  act_on-index :
      (draw : ItemDraw) (op : BulkOperation) (o : Option String) (action : String) (f : Fields)
      (s : Store)
      → index_of (act_on sha256 payload vectors draw op o action f s).0 ≡ index_of f
  act_on-index draw op none action f s = kept "status" (str "not_found") f refl
  act_on-index draw op (some i) action f s =
      elim (Bool-cases (action == "update" || action == "delete")) [
        | inl e ↦ rw e (act_found-index draw op (action == "delete") (get_memory i s) f s)
        | inr e ↦ rw e (failed_with-index "ValueError" f)
      ]

  pub run_item-index :
      (draw : ItemDraw) (i : ℕ) (op : BulkOperation) (s : Store)
      → index_of (run_item sha256 payload vectors draw i op s).0 ≡ some (num i)
  unfolding run_item get_field
  run_item-index draw i op s = act_on-index draw op op.memory_id (action_of op) (item_fields i op) s
