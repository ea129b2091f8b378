-- ===== src/Pointer/LastToken.antt =====
-- The pointer functions at a pointer whose last token is known: a walk to the parent, and one step.
use llm_evolutionary_samplin.Prelude.{
  String, ◌≡◌, ◌≢◌, refl, ap, sym, ◌∙◌, true, false, some, List, [], ◌∷◌, ◌++◌, Result, ok, ◌>>=◌,
  ◌==◌, string_eq, nat_eq, arith, Bool-cases, inl, inr, >>=_assoc, length, length-append,
}
use llm_evolutionary_samplin.Error.{Error, Reason}
use llm_evolutionary_samplin.Json.{Json, null, bool, int, float, str, arr, obj}
use llm_evolutionary_samplin.Pointer.{
  step, walk, resolving, getting, split_last, place_of, is_root, json_pointer_split,
  json_pointer_resolve_parent, json_pointer_get, json_pointer_add, json_pointer_remove,
  json_pointer_replace, write_back, change_parent, add_to, remove_from, replace_in, split_slash,
  unescape_all, split_text,
}
use Prim.Native.Char.{Char, code}
use llm_evolutionary_samplin.Pointer.Walk.{walk-append}

split_last-append :
    (t : String) (ts : List String) (tok : String) → split_last t (ts ++ tok ∷ []) ≡ (t ∷ ts, tok)
unfolding split_last
split_last-append t [] tok = refl
split_last-append t (u ∷ us) tok =
    ap (λ (r : List String × String). (t ∷ r.0, r.1)) (split_last-append u us tok)

-- The change of the parent at `toks`, seen from the document.
abbrev pub changed :
    Json → List String → String → (Json → String → Result Error Json) → Result Error Json
changed doc toks tok change = do
  p ← walk resolving doc toks
  p' ← change p tok
  ok (write_back p' doc toks)

place_of-append :
    (doc : Json) (toks : List String) (tok : String)
    → place_of doc (toks ++ tok ∷ []) ≡ (
        walk resolving doc toks >>= λ p.
        ok (some (record { address = toks; parent = p; token = tok })))
unfolding place_of
place_of-append doc [] tok = unfold split_last in refl
place_of-append doc (t ∷ ts) tok = rw split_last-append

pub root_split : (ptr : Json) → is_root ptr ≡ true → json_pointer_split ptr ≡ ok []
unfolding json_pointer_split
root_split null h = cc
root_split (bool b) h = cc
root_split (int n) h = cc
root_split (float b) h = cc
root_split (str s) h = rw ((string_eq.beq_iff s "").0 h) refl
root_split (arr xs) h = cc
root_split (obj fs) h = cc

snoc-ne-nil : (toks : List String) (tok : String) → toks ++ tok ∷ [] ≢ []
snoc-ne-nil toks tok e = omega (arith, length-append toks (tok ∷ []), ap (length {A = String}) e)

ok_inj : {a b : List String} → ◌≡◌ {A = Result Error (List String)} (ok a) (ok b) → a ≡ b
ok_inj e = cc

module _ (ptr : Json) (toks : List String) (tok : String)
    (split : json_pointer_split ptr ≡ ok (toks ++ tok ∷ [])) where
  not_root : is_root ptr ≡ false
  not_root = elim (Bool-cases (is_root ptr)) [
    | inl root ↦ absurd (snoc-ne-nil toks tok (ok_inj (sym split ∙ root_split ptr root)))
    | inr h ↦ h
  ]

  resolve_place :
      (doc : Json) (reason : Reason) (change : Json → String → Result Error Json)
      → (json_pointer_resolve_parent doc ptr >>= λ place. change_parent doc place reason change)
        ≡ changed doc toks tok change
  unfolding json_pointer_resolve_parent
  resolve_place doc reason change =
      rw split (rw place_of-append (unfold change_parent in simp >>=_assoc))

  pub get_place :
      (doc : Json) → json_pointer_get doc ptr ≡ (walk getting doc toks >>= λ p. step getting p tok)
  unfolding json_pointer_get
  get_place doc = rw split (walk-append getting doc toks tok)

  pub add_place :
      (doc value : Json)
      → json_pointer_add doc ptr value ≡ changed doc toks tok (λ p t. add_to p t value)
  unfolding json_pointer_add
  add_place doc value = rw not_root (resolve_place doc _ _)

  pub remove_place : (doc : Json) → json_pointer_remove doc ptr ≡ changed doc toks tok remove_from
  unfolding json_pointer_remove
  remove_place doc = rw not_root (resolve_place doc _ _)

  pub replace_place :
      (doc value : Json)
      → json_pointer_replace doc ptr value
        ≡ (json_pointer_get doc ptr >>= λ _. changed doc toks tok (λ p t. replace_in p t value))
  unfolding json_pointer_replace
  replace_place doc value =
      rw not_root (ap (λ r. json_pointer_get doc ptr >>= λ _. r) (resolve_place doc _ _))

abbrev IsCons : List String → Type 0
IsCons xs = (t : String) × (ts : List String) × (xs ≡ t ∷ ts)

split_slash-IsCons : (s : String) → IsCons (split_slash s)
unfolding split_slash
split_slash-IsCons String.[] = ("", [], refl)
split_slash-IsCons (String.◌∷◌ c s) =
    let (t, ts, e) = split_slash-IsCons s in
    elim (Bool-cases (code c == b'/')) [
      | inl slash ↦ ("", split_slash s, rw slash)
      | inr other ↦ (String.◌∷◌ c t, ts, rw other (rw e))
    ]

split_text_slash :
    (c : Char) (s : String) → (code c == b'/') ≡ true → split_text (String.◌∷◌ c s) ≢ ok []
unfolding split_text
split_text_slash c s slash h =
    let (t, ts, e) = split_slash-IsCons s in ground (arith, ap unescape_all e)

split_text_other :
    (c : Char) (s : String) → (code c == b'/') ≡ false → split_text (String.◌∷◌ c s) ≢ ok []
unfolding split_text
split_text_other c s other h = ground arith

-- Only the empty pointer has no tokens.
pub split_root : (ptr : Json) → json_pointer_split ptr ≡ ok [] → is_root ptr ≡ true
unfolding json_pointer_split
split_root null h = cc
split_root (bool b) h = cc
split_root (int n) h = cc
split_root (float b) h = cc
split_root (str String.[]) h = (string_eq.beq_iff "" "").1 refl
split_root (str (String.◌∷◌ c s)) h = elim (Bool-cases (code c == b'/')) [
  | inl slash ↦ absurd (split_text_slash c s slash h)
  | inr other ↦ absurd (split_text_other c s other h)
]
split_root (arr xs) h = cc
split_root (obj fs) h = cc
