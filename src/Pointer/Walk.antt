-- ===== src/Pointer/Walk.antt =====
-- Walks along an address, and documents changed at the end of a walk.
use llm_evolutionary_samplin.Prelude.{
  ℕ, String, ◌≡◌, refl, ap, sym, ◌∙◌, false, some, List, [], ◌∷◌, ◌++◌, ok, err, ◌>>=◌, ◌==◌,
  string_eq, arith, Option-cases, inl, inr, eq_refl, >>=-eq-ok,
}
use llm_evolutionary_samplin.Json.{Json, null, bool, int, float, str, arr, obj, Items, Fields}
use llm_evolutionary_samplin.Json.Objects.{
  get_field, set_field, get_item, set_item, count_items, get-set_field,
}
use llm_evolutionary_samplin.Json.Writes.{
  set_field_self, set-set_field, set_item_self, set-set_item, get-set_item_found, count-set_item,
}
use llm_evolutionary_samplin.Pointer.{Messages, step, walk, index_of, write_back, split_last}

pub walk-append :
    (m : Messages) (doc : Json) (toks : List String) (tok : String)
    → walk m doc (toks ++ tok ∷ []) ≡ (walk m doc toks >>= λ p. step m p tok)
unfolding walk
walk-append m doc [] tok = ground arith
walk-append m doc (t ∷ toks) tok =
    elim (step m doc t)
      as (λ r.
        (r >>= λ d. walk m d (toks ++ tok ∷ []))
        ≡ ((r >>= λ d. walk m d toks) >>= λ p. step m p tok)) [
          | ok d ↦ walk-append m d toks tok
          | err e ↦ refl
        ]

pub append-split_last :
    (t : String) (ts : List String) → (split_last t ts).0 ++ (split_last t ts).1 ∷ [] ≡ t ∷ ts
unfolding split_last
append-split_last t [] = refl
append-split_last t (u ∷ us) = ap (◌∷◌ t) (append-split_last u us)

-- What a step into a list found.
pub step-arr :
    (m : Messages) (xs : Items) (tok : String) {next : Json}
    → step m (arr xs) tok ≡ ok next
    → (i : ℕ) × (index_of tok (count_items xs) ≡ some i)
      × (get_item i xs ≡ some next)
      × ((tok == "-") ≡ false)
unfolding step index_of
step-arr m xs tok h = elim (Option-cases (index_of tok (count_items xs))) [
  | inl none_found ↦ ground arith
  | inr (i, found) ↦ (i, found, ground arith, ground arith)
]

pub arr-step :
    (m : Messages) (xs : Items) (tok : String) (i : ℕ) (next : Json)
    → index_of tok (count_items xs) ≡ some i
    → get_item i xs ≡ some next
    → (tok == "-") ≡ false
    → step m (arr xs) tok ≡ ok next
unfolding step index_of
arr-step m xs tok i next hi hn hd = ground arith

pub step-obj :
    (m : Messages) (fs : Fields) (tok : String) {next : Json}
    → step m (obj fs) tok ≡ ok next
    → get_field tok fs ≡ some next
unfolding step
step-obj m fs tok h = ground arith

-- Both walks find the same, whatever they would raise.
pub step_messages :
    (m m' : Messages) (doc : Json) (tok : String) {next : Json}
    → step m doc tok ≡ ok next
    → step m' doc tok ≡ ok next
step_messages m m' null tok h = unfold step in cc h
step_messages m m' (bool b) tok h = unfold step in cc h
step_messages m m' (int n) tok h = unfold step in cc h
step_messages m m' (float b) tok h = unfold step in cc h
step_messages m m' (str s) tok h = unfold step in cc h
step_messages m m' (arr xs) tok {next} h =
    let (i, hi, hn, hd) = step-arr m xs tok h in arr-step m' xs tok i next hi hn hd
step_messages m m' (obj fs) tok h = let e = step-obj m fs tok h in unfold step in rw e

pub walk_messages :
    (m m' : Messages) (doc : Json) (toks : List String) {p : Json}
    → walk m doc toks ≡ ok p
    → walk m' doc toks ≡ ok p
unfolding walk
walk_messages m m' doc [] h = h
walk_messages m m' doc (t ∷ toks) h =
    let (next, hs, hw) = >>=-eq-ok (step m doc t) (λ d. walk m d toks) h in
    rw (step_messages m m' doc t hs) (walk_messages m m' next toks hw)

pub walk-cons :
    (m : Messages) (doc : Json) (tok : String) (toks : List String) {p : Json}
    → walk m doc (tok ∷ toks) ≡ ok p
    → (next : Json) × (step m doc tok ≡ ok next) × (walk m next toks ≡ ok p)
unfolding walk
walk-cons m doc tok toks h = >>=-eq-ok (step m doc tok) (λ d. walk m d toks) h

walk-step :
    (m : Messages) (doc next : Json) (tok : String) (toks : List String)
    → step m doc tok ≡ ok next
    → walk m doc (tok ∷ toks) ≡ walk m next toks
unfolding walk
walk-step m doc next tok toks h = rw h

-- The place in `doc` that one step leads to, as a context with a hole.
record Focus (m : Messages) (doc : Json) (tok : String) (next : Json) : Type 0 where
  put : Json → Json
  whole : put next ≡ doc
  Finds : (child : Json) → step m (put child) tok ≡ ok child
  writes :
      (child new : Json) (toks : List String)
      → write_back new (put child) (tok ∷ toks) ≡ put (write_back new child toks)

write_back-arr :
    (new child : Json) (xs : Items) (tok : String) (toks : List String) (i : ℕ)
    → index_of tok (count_items xs) ≡ some i
    → get_item i xs ≡ some child
    → write_back new (arr xs) (tok ∷ toks) ≡ arr (set_item i (write_back new child toks) xs)
unfolding write_back
write_back-arr new child xs tok toks i hi hn = ground arith

write_back-obj :
    (new child : Json) (fs : Fields) (tok : String) (toks : List String)
    → get_field tok fs ≡ some child
    → write_back new (obj fs) (tok ∷ toks) ≡ obj (set_field tok (write_back new child toks) fs)
unfolding write_back
write_back-obj new child fs tok toks h = ground arith

Focus-arr :
    (m : Messages) (xs : Items) (tok : String) {next : Json}
    → step m (arr xs) tok ≡ ok next
    → Focus m (arr xs) tok next
Focus-arr m xs tok {next} h =
    let (i, hi, hn, hd) = step-arr m xs tok h in
    let found : (c : Json) → get_item i (set_item i c xs) ≡ some c =
      λ c. get-set_item_found i c next xs hn in
    let index : (c : Json) → index_of tok (count_items (set_item i c xs)) ≡ some i =
      λ c. rw count-set_item hi in
    record {
      put = λ c. arr (set_item i c xs);
      whole = ap arr (set_item_self i next xs hn);
      Finds = λ c. arr-step m _ tok i c (index c) (found c) hd;
      writes = λ c new toks.
          write_back-arr new c _ tok toks i (index c) (found c)
          ∙ ap arr (set-set_item i (write_back new c toks) c xs);
    }

Focus-obj :
    (m : Messages) (fs : Fields) (tok : String) {next : Json}
    → step m (obj fs) tok ≡ ok next
    → Focus m (obj fs) tok next
Focus-obj m fs tok {next} h =
    let e = step-obj m fs tok h in
    let found : (c : Json) → get_field tok (set_field tok c fs) ≡ some c =
      λ c. simp (get-set_field, eq_refl) in
    record {
      put = λ c. obj (set_field tok c fs);
      whole = ap obj (set_field_self tok next fs e);
      Finds = λ c. unfold step in rw (found c);
      writes = λ c new toks.
          write_back-obj new c _ tok toks (found c)
          ∙ ap obj (set-set_field tok (write_back new c toks) c fs);
    }

focus :
    (m : Messages) (doc : Json) (tok : String) {next : Json}
    → step m doc tok ≡ ok next
    → Focus m doc tok next
focus m null tok h = unfold step in cc h
focus m (bool b) tok h = unfold step in cc h
focus m (int n) tok h = unfold step in cc h
focus m (float b) tok h = unfold step in cc h
focus m (str s) tok h = unfold step in cc h
focus m (arr xs) tok h = Focus-arr m xs tok h
focus m (obj fs) tok h = Focus-obj m fs tok h

module _ (m : Messages) where
  -- After a change the walk finds what was written.
  pub walk-write_back :
      (new doc : Json) (toks : List String) {p : Json}
      → walk m doc toks ≡ ok p
      → walk m (write_back new doc toks) toks ≡ ok new
  walk-write_back new doc [] h = unfold walk write_back in refl
  walk-write_back new doc (t ∷ toks) h =
      let (next, hs, hw) = walk-cons m doc t toks h in
      let f = focus m doc t hs in
      ap (λ d. walk m (write_back new d (t ∷ toks)) (t ∷ toks)) (sym f.whole)
      ∙ ap (λ d. walk m d (t ∷ toks)) (f.writes next new toks)
      ∙ walk-step m _ (write_back new next toks) t toks (f.Finds (write_back new next toks))
      ∙ walk-write_back new next toks hw

  -- The second of two changes at one address is what stays.
  pub write_back_twice :
      (new old doc : Json) (toks : List String) {p : Json}
      → walk m doc toks ≡ ok p
      → write_back new (write_back old doc toks) toks ≡ write_back new doc toks
  write_back_twice new old doc [] h = unfold write_back in refl
  write_back_twice new old doc (t ∷ toks) h =
      let (next, hs, hw) = walk-cons m doc t toks h in
      let f = focus m doc t hs in
      let ih = write_back_twice new old next toks hw in
      ap (λ d. write_back new (write_back old d (t ∷ toks)) (t ∷ toks)) (sym f.whole)
      ∙ ap (λ d. write_back new d (t ∷ toks)) (f.writes next old toks)
      ∙ f.writes (write_back old next toks) new toks
      ∙ ap f.put ih
      ∙ sym (f.writes next new toks)
      ∙ ap (λ d. write_back new d (t ∷ toks)) f.whole

  -- Nothing changes if the parent is put back as it was.
  pub write_back_self :
      (doc : Json) (toks : List String) {p : Json}
      → walk m doc toks ≡ ok p
      → write_back p doc toks ≡ doc
  write_back_self doc [] h = unfold walk write_back in cc h
  write_back_self doc (t ∷ toks) {p} h =
      let (next, hs, hw) = walk-cons m doc t toks h in
      let f = focus m doc t hs in
      ap (λ d. write_back p d (t ∷ toks)) (sym f.whole)
      ∙ f.writes next p toks
      ∙ ap f.put (write_back_self next toks hw)
      ∙ f.whole
