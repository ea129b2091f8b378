-- ===== src/Pointer/Laws.antt =====
-- What `_json_pointer_get` finds after an `add`, a `replace` or a `remove` of plan_scaler.py.
use llm_evolutionary_samplin.Prelude.{
  String, ◌≡◌, ◌≢◌, refl, ap, sym, ◌∙◌, true, List, [], ◌∷◌, ◌++◌, Result, ok, err, ◌>>=◌,
  >>=-eq-ok, Bool-cases, inl, inr,
}
use llm_evolutionary_samplin.Error.{Error}
use llm_evolutionary_samplin.Json.{Json}
use llm_evolutionary_samplin.Pointer.{
  walk, resolving, getting, step, split_last, is_root, json_pointer_split, json_pointer_get,
  json_pointer_add, json_pointer_remove, json_pointer_replace, write_back, add_to, remove_from,
  replace_in,
}
use llm_evolutionary_samplin.Pointer.Walk.{
  walk_messages, walk-write_back, write_back_twice, write_back_self, append-split_last,
}
use llm_evolutionary_samplin.Pointer.LastToken.{
  changed, get_place, add_place, remove_place, replace_place, root_split, split_root,
}
use llm_evolutionary_samplin.Pointer.Parent.{step-add_to, IsNew, remove-add_to, replace_in_found}

-- What a successful change did.
changed_ok :
    (doc : Json) (toks : List String) (tok : String) (change : Json → String → Result Error Json)
    {doc' : Json}
    → changed doc toks tok change ≡ ok doc'
    → (p : Json) × (walk resolving doc toks ≡ ok p)
      × (p' : Json) × (change p tok ≡ ok p')
      × (write_back p' doc toks ≡ doc')
changed_ok doc toks tok change h =
    let (p, hw, rest) = >>=-eq-ok (walk resolving doc toks) _ h in
    let (p', hc, e) = >>=-eq-ok (change p tok) (λ q. ok (write_back q doc toks)) rest in
    (p, hw, p', hc, cc e)

-- A change that the parent allows goes through.
changed_intro :
    (doc : Json) (toks : List String) (tok : String) (change : Json → String → Result Error Json)
    (p p' : Json)
    → walk resolving doc toks ≡ ok p
    → change p tok ≡ ok p'
    → changed doc toks tok change ≡ ok (write_back p' doc toks)
changed_intro doc toks tok change p p' hw hc = rw hw (rw hc)

module _ (ptr : Json) (toks : List String) (tok : String)
    (split : json_pointer_split ptr ≡ ok (toks ++ tok ∷ [])) where
  get_after :
      (doc p p' v : Json)
      → walk resolving doc toks ≡ ok p
      → step getting p' tok ≡ ok v
      → json_pointer_get (write_back p' doc toks) ptr ≡ ok v
  get_after doc p p' v hw hs =
      get_place ptr toks tok split _
      ∙ rw (walk-write_back getting p' doc toks (walk_messages resolving getting doc toks hw)) hs

  -- If the last token of a pointer is not "-" and the `add` there succeeds, then a `get` at the same
  -- pointer in the new document returns the value that was added.
  pub get-add :
      (doc value : Json) {doc' : Json}
      → tok ≢ "-"
      → json_pointer_add doc ptr value ≡ ok doc'
      → json_pointer_get doc' ptr ≡ ok value
  get-add doc value nd h =
      let (p, hw, p', hc, e) =
        changed_ok doc toks tok (λ q t. add_to q t value)
          (sym (add_place ptr toks tok split doc value) ∙ h) in
      rw (← e) (get_after doc p p' value hw (step-add_to getting p tok value hc nd))

  -- If the last token is not "-", the `add` succeeds and makes a new place (at an object: a new key),
  -- then a `remove` at the same pointer gives back the original document, key order included.
  pub remove-add :
      (doc value : Json) {doc' : Json}
      → tok ≢ "-"
      → ((p : Json) → walk resolving doc toks ≡ ok p → IsNew p tok)
      → json_pointer_add doc ptr value ≡ ok doc'
      → json_pointer_remove doc' ptr ≡ ok doc
  remove-add doc value nd new h =
      let (p, hw, p', hc, e) =
        changed_ok doc toks tok (λ q t. add_to q t value)
          (sym (add_place ptr toks tok split doc value) ∙ h) in
      rw (← e) (
        remove_place ptr toks tok split _
        ∙ changed_intro _ toks tok remove_from p' p (walk-write_back resolving p' doc toks hw)
            (remove-add_to p tok value hc nd (new p hw))
        ∙ ap ok
            (write_back_twice resolving p p' doc toks hw ∙ write_back_self resolving doc toks hw))

  replace_found :
      (doc value w : Json)
      → json_pointer_get doc ptr ≡ ok w
      → (doc' : Json) × (json_pointer_replace doc ptr value ≡ ok doc')
        × (json_pointer_get doc' ptr ≡ ok value)
        × (json_pointer_replace doc' ptr w ≡ ok doc)
  replace_found doc value w h =
      let (p, hg, hs) =
        >>=-eq-ok (walk getting doc toks) (λ q. step getting q tok)
          (sym (get_place ptr toks tok split doc) ∙ h) in
      let hw = walk_messages getting resolving doc toks hg in
      let (p', hc, hs', back) = replace_in_found getting p tok value hs in
      let got = get_after doc p p' value hw hs' in
      (
        write_back p' doc toks,
        replace_place ptr toks tok split doc value
            ∙ rw h (changed_intro doc toks tok (λ q t. replace_in q t value) p p' hw hc),
        got,
        replace_place ptr toks tok split _ w
            ∙ rw got (
                changed_intro _ toks tok (λ q t. replace_in q t w) p' p
                  (walk-write_back resolving p' doc toks hw) back
                ∙ ap ok (
                    write_back_twice resolving p p' doc toks hw
                    ∙ write_back_self resolving doc toks hw)),
      )

get_bind :
    (doc ptr : Json) → (json_pointer_split ptr >>= walk getting doc) ≡ json_pointer_get doc ptr
unfolding json_pointer_get
get_bind doc ptr = refl

ok_ne_err : {a : Json} {e : Error} → ◌≢◌ {A = Result Error Json} (ok a) (err e)
ok_ne_err h = cc

abbrev pub ReplaceWorks : (doc ptr value w : Json) → Type 0
ReplaceWorks doc ptr value w =
    (doc' : Json) × (json_pointer_replace doc ptr value ≡ ok doc')
    × (json_pointer_get doc' ptr ≡ ok value)
    × (json_pointer_replace doc' ptr w ≡ ok doc)

get_root : (doc ptr : Json) → json_pointer_split ptr ≡ ok [] → json_pointer_get doc ptr ≡ ok doc
unfolding json_pointer_get walk
get_root doc ptr e = rw e

replace_root :
    (doc ptr value : Json) → is_root ptr ≡ true → json_pointer_replace doc ptr value ≡ ok value
unfolding json_pointer_replace
replace_root doc ptr value root = rw root

replace_at :
    (doc ptr value w : Json) (toks : List String)
    → json_pointer_split ptr ≡ ok toks
    → json_pointer_get doc ptr ≡ ok w
    → ReplaceWorks doc ptr value w
replace_at doc ptr value w [] split h =
    let root = split_root ptr split in
    (
      value,
      replace_root doc ptr value root,
      get_root value ptr split,
      replace_root value ptr w root ∙ sym h ∙ get_root doc ptr split,
    )
replace_at doc ptr value w (t ∷ ts) split h =
    replace_found ptr (split_last t ts).0 (split_last t ts).1
      (split ∙ ap ok (sym (append-split_last t ts))) doc value w h

-- Wherever a `get` succeeds, a `replace` succeeds too, a `get` of the new document returns the new
-- value, and replacing it by the old value gives back the original document.
pub replace-get :
    (doc ptr value w : Json) → json_pointer_get doc ptr ≡ ok w → ReplaceWorks doc ptr value w
replace-get doc ptr value w h =
    let (toks, split, rest) =
      >>=-eq-ok (json_pointer_split ptr) (walk getting doc) (get_bind doc ptr ∙ h) in
    replace_at doc ptr value w toks split h

-- Wherever the `get` raises, the `replace` raises the same.
pub replace-get_raises :
    (doc ptr value : Json) (e : Error)
    → json_pointer_get doc ptr ≡ err e
    → json_pointer_replace doc ptr value ≡ err e
replace-get_raises doc ptr value e h = elim (Bool-cases (is_root ptr)) [
  | inl root ↦ absurd (ok_ne_err (sym (get_root doc ptr (root_split ptr root)) ∙ h))
  | inr other ↦ unfold json_pointer_replace in rw other (rw h)
]
