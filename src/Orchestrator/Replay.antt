-- ===== src/Orchestrator/Replay.antt =====
-- The accumulated state is what its steps' evaluated plans give, so that it can be rebuilt from them.
use llm_evolutionary_samplin.Prelude.{
  ℕ, zero, suc, ◌+◌, ◌-◌, ◌<◌, ◌≤◌, pos, ◌≡◌, refl, ap, sym, ◌∙◌, true, ◌||◌, Option, some, List,
  nat_eq, string_eq, ltb, if◌then◌else◌, Result, ok, err, ◌>>=◌, >>=-eq-ok, or_raise, arith, subst,
}
use llm_evolutionary_samplin.Prelude.Dict.{Dict, lookup, lookup-insert}
use llm_evolutionary_samplin.Error.{Error, runtime_error}
use llm_evolutionary_samplin.Samples.{QueryInfo, Sampling, accumulate_samples}
use llm_evolutionary_samplin.Orchestrator.{
  Files, Steps, Settings, min_nat, rebuild_limit, rebuild, accumulate, from_base, is_missing, start,
  remaining_steps, run_sampling_steps,
}
use llm_evolutionary_samplin.Orchestrator.Progress.{
  IsStep, remaining_steps-add, remaining_steps-carries,
}
use llm_evolutionary_samplin.Orchestrator.Resume.{
  fresh, IsAt, IsPlain, bind_ok, plain_run, fresh_run, fresh_run-IsAt,
}

-- The evaluated plans of a number of steps accumulated one after the other.
replay :
    Dict ℕ (List Sampling) → (step_idx left : ℕ) → List QueryInfo → Result Error (List QueryInfo)
replay evaluated i zero state = ok state
replay evaluated i (suc left) state = do
  samplings ← or_raise (lookup i evaluated) runtime_error
  state' ← accumulate_samples samplings state
  replay evaluated (i + 1) left state'

abbrev with_final : Files → List QueryInfo → Files
with_final files state = record files { final_sampling = some state }

rebuild-replay :
    (i left : ℕ) (files : Files) (state state' : List QueryInfo)
    → replay files.evaluated i left state ≡ ok state'
    → rebuild i left (with_final files state) ≡ ok (with_final files state')
unfolding replay rebuild accumulate
rebuild-replay i zero files state state' h = ap (λ s. ok (with_final files s)) (ok_inj h)
  where
    ok_inj : ◌≡◌ {A = Result Error (List QueryInfo)} (ok state) (ok state') → state ≡ state'
    ok_inj e = cc e
rebuild-replay i (suc left) files state state' h =
    let (samplings, es, h1) = >>=-eq-ok (or_raise (lookup i files.evaluated) runtime_error) _ h in
    let (next, en, h2) =
      >>=-eq-ok (accumulate_samples samplings state) (replay files.evaluated (i + 1) left) h1 in
    rw es (rw en (rebuild-replay (i + 1) left files next state' h2))

replay-more :
    (evaluated evaluated' : Dict ℕ (List Sampling)) (i left : ℕ) (state : List QueryInfo)
    → ((j : ℕ) → j < i + left → lookup j evaluated' ≡ lookup j evaluated)
    → replay evaluated' i left state ≡ replay evaluated i left state
unfolding replay
replay-more evaluated evaluated' i zero state same = refl
replay-more evaluated evaluated' i (suc left) state same =
    ap
      (λ o. or_raise o runtime_error >>= λ s.
        accumulate_samples s state >>= replay evaluated' (i + 1) left)
      (same i (omega arith))
    ∙ in_both (or_raise (lookup i evaluated) runtime_error)
        (λ s. accumulate_samples s state >>= replay evaluated' (i + 1) left)
        (λ s. accumulate_samples s state >>= replay evaluated (i + 1) left)
        (λ s.
          in_both (accumulate_samples s state) (replay evaluated' (i + 1) left)
            (replay evaluated (i + 1) left)
            (λ st.
              replay-more evaluated evaluated' (i + 1) left st
                (λ j less. same j (omega (arith, less)))))
  where
    in_both :
        {A B : Type 0} (r : Result Error A) (f g : A → Result Error B)
        → ((x : A) → f x ≡ g x)
        → (r >>= f) ≡ (r >>= g)
    in_both (ok x) f g h = h x
    in_both (err e) f g h = refl

replay-last :
    (evaluated : Dict ℕ (List Sampling)) (i left : ℕ) (state next state' : List QueryInfo)
    (samplings : List Sampling)
    → replay evaluated i left state ≡ ok next
    → lookup (i + left) evaluated ≡ some samplings
    → accumulate_samples samplings next ≡ ok state'
    → replay evaluated i (left + 1) state ≡ ok state'
unfolding replay
replay-last evaluated i zero state next state' samplings h found e =
    let at : lookup i evaluated ≡ some samplings =
      ap (λ m. lookup m evaluated) {y = i + 0} (omega arith) ∙ found in
    let same : state ≡ next = cc h in
    let accumulated : accumulate_samples samplings state ≡ ok state' =
      ap (accumulate_samples samplings) same ∙ e in
    rw at (rw accumulated refl)
replay-last evaluated i (suc left) state next state' samplings h found e =
    let (first, ef, h1) = >>=-eq-ok (or_raise (lookup i evaluated) runtime_error) _ h in
    let (then_, et, h2) =
      >>=-eq-ok (accumulate_samples first state) (replay evaluated (i + 1) left) h1 in
    let longer : suc left + 1 ≡ suc (left + 1) = omega arith in
    let later =
      replay-last evaluated (i + 1) left then_ next state' samplings h2
        (ap (λ m. lookup m evaluated) {y = i + suc left} (omega arith) ∙ found) e in
    ap (λ m. replay evaluated i m state) longer ∙ rw ef (rw et later)

-- The state that is saved behind step `n` is what the first `n` steps give.
record Rebuilds (base : List QueryInfo) (n : ℕ) (files : Files) : Type 0 where
  state : List QueryInfo
  saved : files.final_sampling ≡ some state
  same_base : files.base_sampling ≡ base
  replayed : replay files.evaluated 1 n base ≡ ok state

earlier :
    (i j : ℕ) (files files' : Files)
    → IsStep i files files'
    → j < i
    → lookup j files'.evaluated ≡ lookup j files.evaluated
earlier i j files files' step less =
    ap (lookup j) step.evaluated
    ∙ lookup-insert i j step.samplings files.evaluated
    ∙ ground (arith, less)

at_step :
    (i : ℕ) (files files' : Files)
    → (step : IsStep i files files') → lookup i files'.evaluated ≡ some step.samplings
at_step i files files' step =
    ap (lookup i) step.evaluated ∙ lookup-insert i i step.samplings files.evaluated ∙ ground arith

Rebuilds-step :
    (base : List QueryInfo) (n : ℕ) (files files' : Files)
    → Rebuilds base n files
    → IsStep (n + 1) files files'
    → Rebuilds base (n + 1) files'
Rebuilds-step base n files files' r step =
    let same : step.before ≡ r.state =
      some_inj step.before r.state (sym step.has_before ∙ r.saved) in
    record {
      state = step.after;
      saved = step.has_after;
      same_base = step.base ∙ r.same_base;
      replayed =
          replay-last files'.evaluated 1 n base step.before step.after step.samplings
            (replay-more files.evaluated files'.evaluated 1 n base
                (λ j less. earlier (n + 1) j files files' step (omega (arith, less)))
              ∙ r.replayed
              ∙ ap ok (sym same))
            (ap (λ m. lookup m files'.evaluated) {y = n + 1} (omega arith)
              ∙ at_step (n + 1) files files' step)
            step.accumulated;
    }
  where
    some_inj : (a b : List QueryInfo) → ◌≡◌ {A = Option (List QueryInfo)} (some a) (some b) → a ≡ b
    some_inj a b e = cc e

-- The evaluated plans of the first `n` steps stay as they are.
record Extends (short : Files) (n m : ℕ) (files : Files) : Type 0 where
  beyond : n ≤ m
  keeps : (j : ℕ) → j < 1 + n → lookup j files.evaluated ≡ lookup j short.evaluated

Extends-step :
    (short : Files) (n m : ℕ) (files files' : Files)
    → Extends short n m files
    → IsStep (m + 1) files files'
    → Extends short n (m + 1) files'
Extends-step short n m files files' x step = record {
  beyond = omega (arith, x.beyond);
  keeps = λ j less.
      earlier (m + 1) j files files' step (omega (arith, less, x.beyond)) ∙ x.keeps j less;
}

some_below :
    (n k : ℕ) (files : Files) → (is_missing files.final_sampling || ltb n (n + suc k)) ≡ true
some_below n k files = ground arith

module _ (steps : Steps) (settings : Settings) (p : IsPlain settings) where
  fresh_run-Rebuilds :
      (n : ℕ) (base : List QueryInfo) (files : Files)
      → run_sampling_steps steps settings (pos n) (fresh base) ≡ ok files
      → Rebuilds base n files
  unfolding replay
  fresh_run-Rebuilds n base files h =
      subst (λ m. Rebuilds base m files) {y = n} (omega arith)
        (remaining_steps-carries steps settings (Rebuilds base) (Rebuilds-step base) 0 n
          (from_base (fresh base)) files
          (record { state = base; saved = refl; same_base = refl; replayed = refl })
          (sym (fresh_run steps settings p n base) ∙ h))

  longer-Extends :
      (n k : ℕ) (base : List QueryInfo) (short long : Files)
      → run_sampling_steps steps settings (pos n) (fresh base) ≡ ok short
      → run_sampling_steps steps settings (pos (n + k)) (fresh base) ≡ ok long
      → Extends short n (n + k) long
  longer-Extends n k base short long hs hl =
      let first : remaining_steps steps settings 1 n (from_base (fresh base)) ≡ ok short =
        sym (fresh_run steps settings p n base) ∙ hs in
      remaining_steps-carries steps settings (Extends short n) (Extends-step short n) n k short long
        (record { beyond = omega arith; keeps = λ j less. refl })
        (ap (λ m. remaining_steps steps settings m k short) {y = 1 + n} (omega arith)
          ∙ sym (
              remaining_steps-add steps settings 1 n k (from_base (fresh base))
              ∙ ap (λ r. r >>= remaining_steps steps settings (1 + n) k) first)
          ∙ sym (fresh_run steps settings p (n + k) base)
          ∙ hl)

  fewer_run :
      (n k : ℕ) (files : Files)
      → IsAt (n + suc k) files
      → run_sampling_steps steps settings (pos n) files ≡ rebuild 1 n (from_base files)
  unfolding rebuild_limit start remaining_steps
  fewer_run n k files at =
      let up_to : min_nat (n + suc k) n ≡ n = ground arith in
      let below : (is_missing files.final_sampling || ltb n (n + suc k)) ≡ true =
        some_below n k files in
      plain_run steps settings p n files
      ∙ ap
          (λ c.
            (if is_missing files.final_sampling || ltb n c
              then rebuild 1 (min_nat c n) (from_base files)
              else ok files)
            >>= remaining_steps steps settings (min_nat c n + 1) (n - min_nat c n))
          at.completed
      ∙ ap
          (λ b.
            (if b then rebuild 1 (min_nat (n + suc k) n) (from_base files) else ok files)
            >>= remaining_steps steps settings (min_nat (n + suc k) n + 1)
                (n - min_nat (n + suc k) n))
          below
      ∙ ap (λ m. rebuild 1 m (from_base files) >>= remaining_steps steps settings (m + 1) (n - m))
          up_to
      ∙ ap (λ m. rebuild 1 n (from_base files) >>= remaining_steps steps settings (n + 1) m) {y = 0}
          (omega arith)
      ∙ bind_ok (rebuild 1 n (from_base files))

  -- If runs of `n` steps and of more than `n` steps on fresh files return, for a strategy without top-ups
  -- that is run with `resume`, then running `n` steps on the files of the longer run returns, and it
  -- rebuilds the accumulated state of the shorter one.
  pub run_sampling_steps_rebuilds :
      (n k : ℕ) (base : List QueryInfo) (short long : Files)
      → run_sampling_steps steps settings (pos n) (fresh base) ≡ ok short
      → run_sampling_steps steps settings (pos (n + suc k)) (fresh base) ≡ ok long
      → (files : Files) × (run_sampling_steps steps settings (pos n) long ≡ ok files)
        × (files.final_sampling ≡ short.final_sampling)
  run_sampling_steps_rebuilds n k base short long hs hl =
      let s = fresh_run-Rebuilds n base short hs in
      let l = fresh_run-Rebuilds (n + suc k) base long hl in
      let x = longer-Extends n (suc k) base short long hs hl in
      (
        with_final long s.state,
        fewer_run n k long (fresh_run-IsAt steps settings p (n + suc k) base long hl)
            ∙ rebuild-replay 1 n long long.base_sampling s.state (
                ap (replay long.evaluated 1 n) l.same_base
                ∙ replay-more short.evaluated long.evaluated 1 n base x.keeps
                ∙ s.replayed),
        sym s.saved,
      )
