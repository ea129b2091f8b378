-- ===== src/Graph/Visits.antt =====
-- What a visit of the traversal of plan_scaler.py leaves behind.
use llm_evolutionary_samplin.Prelude.{
  ℕ, suc, ◌≤◌, ◌<◌, ℤ, ◌≡◌, refl, ap, sym, ◌∙◌, true, false, ◌||◌, not, Option, some, List, [], ◌∷◌,
  ◌++◌, int_eq, int_beq_iff, if◌then◌else◌, contains, length, select, arith, eq_refl, IsDistinct,
  contains-append,
}
use mathlib.Core.List.{append-nil, append_assoc}
use llm_evolutionary_samplin.Graph.{Visit, visit_each}

-- The ids that were not entered yet.
pub missing : List ℤ → List ℤ → ℕ
missing visited ids = length (select (λ i. not (contains visited i)) ids)

missing-nil : (visited : List ℤ) → missing visited [] ≡ 0
unfolding missing
missing-nil visited = refl

missing-cons :
    (visited : List ℤ) (i : ℤ) (ids : List ℤ)
    → missing visited (i ∷ ids)
      ≡ (if contains visited i then missing visited ids else suc (missing visited ids))
unfolding missing
missing-cons visited i ids = ground arith

pub missing-le-length : (visited ids : List ℤ) → missing visited ids ≤ length ids
missing-le-length visited [] = omega (arith, missing-nil visited)
missing-le-length visited (i ∷ ids) =
    ground (arith, missing-le-length visited ids, missing-cons visited i ids)

-- More visited, fewer missing.
missing_mono :
    (v w ids : List ℤ)
    → ((i : ℤ) → contains v i ≡ true → contains w i ≡ true)
    → missing w ids ≤ missing v ids
missing_mono v w [] h = omega (arith, missing-nil v, missing-nil w)
missing_mono v w (i ∷ ids) h =
    ground (arith, missing_mono v w ids h, missing-cons v i ids, missing-cons w i ids, h i)

pub missing-visit :
    (v : List ℤ) (nid : ℤ) (ids : List ℤ)
    → contains ids nid ≡ true
    → contains v nid ≡ false
    → missing (nid ∷ v) ids < missing v ids
missing-visit v nid [] h k = cc
missing-visit v nid (i ∷ ids) h k = ground (
  arith,
  missing-visit v nid ids,
  missing-cons v i ids,
  missing-cons (nid ∷ v) i ids,
  int_beq_iff nid i,
  int_beq_iff i nid,
  missing_mono v (nid ∷ v) ids (λ j e. ground arith),
)

-- What a call did to the state: it entered new nodes of `ids`, each once, and left all of them.
pub record Ran (ids : List ℤ) (s t : Visit) : Type 0 where
  pub added : List ℤ
  pub order : t.order ≡ s.order ++ added
  pub visited : (i : ℤ) → contains t.visited i ≡ (contains s.visited i || contains added i)
  pub fresh : (i : ℤ) → contains added i ≡ true → contains s.visited i ≡ false
  pub distinct : IsDistinct added
  pub inside : (i : ℤ) → contains added i ≡ true → contains ids i ≡ true

pub Ran-refl : (ids : List ℤ) (s : Visit) → Ran ids s s
Ran-refl ids s = record {
  added = [];
  order = sym (append-nil s.order);
  visited = λ i. ground arith;
  fresh = λ i h. cc;
  distinct = tt;
  inside = λ i h. cc;
}

IsDistinct-append :
    (xs ys : List ℤ)
    → IsDistinct xs
    → IsDistinct ys
    → ((i : ℤ) → contains xs i ≡ true → contains ys i ≡ false)
    → IsDistinct (xs ++ ys)
IsDistinct-append [] ys hx hy apart = hy
IsDistinct-append (x ∷ xs) ys hx hy apart = (
  ground (arith, contains-append xs ys x, hx.0, apart x, eq_refl x),
  IsDistinct-append xs ys hx.1 hy (λ i h. apart i (ground arith)),
)

pub Ran-trans : (ids : List ℤ) (s t u : Visit) → Ran ids s t → Ran ids t u → Ran ids s u
Ran-trans ids s t u a b = record {
  added = a.added ++ b.added;
  order = b.order ∙ ap (λ l. l ++ b.added) a.order ∙ append_assoc s.order a.added b.added;
  visited = λ i. ground (arith, a.visited i, b.visited i, contains-append a.added b.added i);
  fresh =
      λ i h. ground (arith, a.fresh i, b.fresh i, a.visited i, contains-append a.added b.added i);
  distinct =
      IsDistinct-append a.added b.added a.distinct b.distinct
        (λ i h. ground (arith, b.fresh i, a.visited i));
  inside = λ i h. ground (arith, a.inside i, b.inside i, contains-append a.added b.added i);
}

-- Entering a node, running its children and leaving it.
pub Ran-leave :
    (ids : List ℤ) (s t : Visit) (nid : ℤ)
    → contains ids nid ≡ true
    → contains s.visited nid ≡ false
    → Ran ids (record s { visited = nid ∷ s.visited }) t
    → Ran ids s (record t { order = t.order ++ nid ∷ [] })
Ran-leave ids s t nid known new a = record {
  added = a.added ++ nid ∷ [];
  order = ap (λ l. l ++ nid ∷ []) a.order ∙ append_assoc s.order a.added (nid ∷ []);
  visited = λ i. ground (arith, a.visited i, contains-append a.added (nid ∷ []) i);
  fresh = λ i h. ground (arith, a.fresh i, contains-append a.added (nid ∷ []) i, int_beq_iff nid i);
  distinct =
      IsDistinct-append a.added (nid ∷ []) a.distinct (refl, tt)
        (λ i h. ground (arith, a.fresh i h));
  inside =
      λ i h. ground (arith, a.inside i, contains-append a.added (nid ∷ []) i, int_beq_iff nid i);
}

-- A call returned, did no more than it should, and its node is visited.
unfoldable pub Returns : List ℤ → Visit → ℤ → Option Visit → Type 0
Returns ids s nid r = (t : Visit) × (r ≡ some t) × Ran ids s t × (contains t.visited nid ≡ true)

abbrev pub Works : List ℤ → ℕ → (ℤ → Visit → Option Visit) → Type 0
Works ids fuel visit =
    (nid : ℤ) (s : Visit)
    → contains ids nid ≡ true
    → missing s.visited ids < fuel
    → Returns ids s nid (visit nid s)

pub Ran-missing :
    (ids : List ℤ) (s t : Visit) → Ran ids s t → missing t.visited ids ≤ missing s.visited ids
Ran-missing ids s t a = missing_mono s.visited t.visited ids (λ i h. ground (arith, a.visited i))

visit_each_step :
    (visit : ℤ → Visit → Option Visit) (c : ℤ) (cs : List ℤ) (s t : Visit)
    → visit c s ≡ some t
    → visit_each visit (c ∷ cs) s ≡ visit_each visit cs t
unfolding visit_each
visit_each_step visit c cs s t e = ground arith

pub visit_each-Works :
    (ids : List ℤ) (fuel : ℕ) (visit : ℤ → Visit → Option Visit)
    → Works ids fuel visit
    → (cs : List ℤ) (s : Visit) → ((i : ℤ) → contains cs i ≡ true → contains ids i ≡ true)
    → missing s.visited ids < fuel
    → (t : Visit) × (visit_each visit cs s ≡ some t)
      × Ran ids s t
      × ((i : ℤ) → contains cs i ≡ true → contains t.visited i ≡ true)
unfolding visit_each Returns
visit_each-Works ids fuel visit works [] s known h = (s, refl, Ran-refl ids s, λ i c. cc)
visit_each-Works ids fuel visit works (c ∷ cs) s known h =
    let (t, e, a, now) = works c s (known c (ground (arith, eq_refl c))) h in
    let (u, e', b, all) =
      visit_each-Works ids fuel visit works cs t (λ i k. known i (ground arith))
        (omega (arith, Ran-missing ids s t a)) in
    (
      u,
      visit_each_step visit c cs s t e ∙ e',
      Ran-trans ids s t u a b,
      λ i k. ground (arith, all i, b.visited c, now, int_beq_iff c i),
    )
