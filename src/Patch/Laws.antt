-- ===== src/Patch/Laws.antt =====
-- What a `move` or a `copy` does.
use llm_evolutionary_samplin.Prelude.{
  ℕ, String, ◌≡◌, ◌≢◌, refl, ◌∙◌, ◌⊎◌, inl, inr, some, List, [], ◌∷◌, ◌++◌, ok, ◌>>=◌, arith,
  >>=-eq-ok, string_eq,
}
use llm_evolutionary_samplin.Error.{Reason}
use llm_evolutionary_samplin.Json.{Json, str, Fields}
use llm_evolutionary_samplin.Json.Objects.{get_field}
use llm_evolutionary_samplin.Json.Equality.{Floats}
use llm_evolutionary_samplin.Pointer.{
  json_pointer_split, json_pointer_get, json_pointer_add, json_pointer_remove,
}
use llm_evolutionary_samplin.Pointer.Laws.{get-add}
use llm_evolutionary_samplin.Patch.{apply_named, required}

-- What `required` returned.
required_ok :
    (key : String) (op : Fields) (reason : Reason) {v : Json}
    → required key op reason ≡ ok v
    → get_field key op ≡ some v
required_ok key op reason h = ground arith

module _ (floats : Floats) (i : ℕ) (doc path : Json) (op : Fields) {doc' : Json}
    (toks : List String) (tok : String) (split : json_pointer_split path ≡ ok (toks ++ tok ∷ []))
    (nd : tok ≢ "-") where
  -- If a `move` or a `copy` succeeds, and the last token of its path is not "-", then it names a source
  -- at which the old document has a value, and the new document has that value at the path.
  pub get-move_copy :
      (name : String)
      → (name ≡ "move") ⊎ (name ≡ "copy")
      → apply_named floats i doc (str name) path op ≡ ok doc'
      → (from : Json) × (w : Json) × (get_field "from" op ≡ some from)
        × (json_pointer_get doc from ≡ ok w)
        × (json_pointer_get doc' path ≡ ok w)
  get-move_copy name (inl e) h =
      let h' : apply_named floats i doc (str "move") path op ≡ ok doc' = rw e at h in
      let (from, hf, rest) =
        >>=-eq-ok (required "from" op (Reason.move_missing_from i)) _ (move_lem ∙ h') in
      let (w, hg, rest') = >>=-eq-ok (json_pointer_get doc from) _ rest in
      let (cur, hr, ha) =
        >>=-eq-ok (json_pointer_remove doc from) (λ c. json_pointer_add c path w) rest' in
      (from, w, required_ok "from" op _ hf, hg, get-add path toks tok split cur w nd ha)
    where
      move_lem :
          (do
            from ← required "from" op (Reason.move_missing_from i)
            val ← json_pointer_get doc from
            cur ← json_pointer_remove doc from
            json_pointer_add cur path val)
          ≡ apply_named floats i doc (str "move") path op
      move_lem = unfold apply_named in refl
  get-move_copy name (inr e) h =
      let h' : apply_named floats i doc (str "copy") path op ≡ ok doc' = rw e at h in
      let (from, hf, rest) =
        >>=-eq-ok (required "from" op (Reason.copy_missing_from i)) _ (copy_lem ∙ h') in
      let (w, hg, ha) =
        >>=-eq-ok (json_pointer_get doc from) (λ v. json_pointer_add doc path v) rest in
      (from, w, required_ok "from" op _ hf, hg, get-add path toks tok split doc w nd ha)
    where
      copy_lem :
          (do
            from ← required "from" op (Reason.copy_missing_from i)
            val ← json_pointer_get doc from
            json_pointer_add doc path val)
          ≡ apply_named floats i doc (str "copy") path op
      copy_lem = unfold apply_named in refl
