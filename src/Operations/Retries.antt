-- ===== src/Operations/Retries.antt =====
-- Transient errors of an operation are retried, and only so often.
use llm_evolutionary_samplin.Prelude.{
  ℕ, zero, suc, ◌+◌, ◌<◌, ◌≤◌, pos, ◌≡◌, ◌⊎◌, inl, inr, refl, ap, sym, ◌∙◌, String, true, false,
  some, Result, ok, err, ◌>>=◌, Bool-cases, ltb, ltb→lt, arith, contains, string_eq, nat_eq, ◌==◌,
}
use llm_evolutionary_samplin.Error.{Error}
use llm_evolutionary_samplin.Json.{Json, null}
use llm_evolutionary_samplin.Json.Equality.{Floats}
use llm_evolutionary_samplin.Metric.{truthy}
use llm_evolutionary_samplin.Validation.{dict_get}
use llm_evolutionary_samplin.Operations.{
  retry_default_error_kws, retry_only_once, first_kw, Remote, attempt_result, return_, break_,
  continue_, is_retried, after_error, after_attempt, map_error, operation_loop,
  submit_run_operation,
}

-- A result of attempt `i` that another attempt may mend: an empty one, or an error with a keyword of the
-- list, unless it is one that is retried only once.
pub data IsTransient (floats : Floats) (i : ℕ) (result : Json) : Type 0 where
  empty : truthy floats result ≡ false → IsTransient floats i result
  failed :
      (error : Json) (kw : String)
      → truthy floats result ≡ true
      → dict_get result "error" ≡ ok error
      → truthy floats error ≡ true
      → first_kw floats error retry_default_error_kws ≡ ok (some kw)
      → (contains retry_only_once kw ≡ false) ⊎ (i ≡ 0)
      → IsTransient floats i result

pub record IsSuccess (floats : Floats) (result : Json) : Type 0 where
  pub error : Json
  pub is_truthy : truthy floats result ≡ true
  pub is_dict : dict_get result "error" ≡ ok error
  pub no_error : truthy floats error ≡ false

module _ (floats : Floats) (n_retry i : ℕ) where
  is_retried_lem :
      (kw : String)
      → (contains retry_only_once kw ≡ false) ⊎ (i ≡ 0)
      → is_retried i (some kw) ≡ true
  is_retried_lem kw (inl h) = rw h refl
  is_retried_lem kw (inr h) = ground (arith, h)

  after_attempt-IsTransient :
      (result : Json)
      → i < n_retry
      → IsTransient floats i result
      → after_attempt floats n_retry i result ≡ ok continue_
  unfolding after_attempt after_error
  after_attempt-IsTransient result less (IsTransient.empty h) =
      let more : (i == n_retry) ≡ false = ground (arith, less) in rw h (rw more refl)
  after_attempt-IsTransient result less (IsTransient.failed error kw t d te found once) =
      let more : (i == n_retry) ≡ false = ground (arith, less) in
      rw t (rw d (rw te (rw more (rw found (rw (is_retried_lem kw once) refl)))))

  after_attempt-IsSuccess :
      (result : Json)
      → IsSuccess floats result
      → after_attempt floats n_retry i result ≡ ok (break_ result)
  unfolding after_attempt
  after_attempt-IsSuccess result s = rw s.is_truthy (rw s.is_dict (rw s.no_error refl))

map_error-IsSuccess :
    (floats : Floats) (result : Json)
    → IsSuccess floats result
    → map_error floats result ≡ ok result
unfolding map_error
map_error-IsSuccess floats result s = rw s.is_truthy (rw s.is_dict (rw s.no_error refl))

-- Attempt `k` is the first that succeeds, and before it there are transient results only.
pub record SucceedsAt (remote : Remote) (k : ℕ) (result : Json) : Type 0 where
  pub at : attempt_result remote k ≡ ok result
  pub success : IsSuccess remote.floats result
  pub before :
      (j : ℕ)
      → j < k
      → (r : Json) × (attempt_result remote j ≡ ok r) × IsTransient remote.floats j r

loop-SucceedsAt :
    (remote : Remote) (n_retry k : ℕ) (result : Json)
    → SucceedsAt remote k result
    → k ≤ n_retry
    → (i left : ℕ) (last : Json) → i ≤ k
    → k < i + left
    → operation_loop remote n_retry i left last ≡ ok result
unfolding operation_loop
loop-SucceedsAt remote n_retry k result s bound i zero last low high =
    absurd (omega (arith, low, high))
loop-SucceedsAt remote n_retry k result s bound i (suc left) last low high =
    elim (Bool-cases (ltb i k)) [
      | inl below ↦
          let less : i < k = ltb→lt i k below in
          let (r, run, transient) = s.before i less in
          let go_on =
            after_attempt-IsTransient remote.floats n_retry i r (omega (arith, less, bound))
              transient in
          let later =
            loop-SucceedsAt remote n_retry k result s bound (i + 1) left r (omega (arith, less))
              (omega (arith, high)) in
          rw (run, operation_loop) (rw (go_on, operation_loop) later)
      | inr beyond ↦
          let same : k ≡ i = ground (arith, beyond, low) in
          let run : attempt_result remote i ≡ ok result =
            ap (attempt_result remote) (sym same) ∙ s.at in
          let stop = after_attempt-IsSuccess remote.floats n_retry i result s.success in
          rw (run, operation_loop)
            (rw (stop, operation_loop) (map_error-IsSuccess remote.floats result s.success))
    ]

-- If an attempt within the retries succeeds and every attempt before it gave a result that is retried,
-- then the operation returns the result of that attempt.
pub submit_run_operation_succeeds :
    (remote : Remote) (local : Result Error Json) (n_retry k : ℕ) (result : Json)
    → SucceedsAt remote k result
    → k ≤ n_retry
    → submit_run_operation remote local false (pos n_retry) ≡ ok result
unfolding submit_run_operation
submit_run_operation_succeeds remote local n_retry k result s bound =
    loop-SucceedsAt remote n_retry k result s bound 0 (n_retry + 1) null (omega arith)
      (omega (arith, bound))

bind_same :
    (y : Result Error Json) (f g : Json → Result Error Json)
    → ((r : Json) → f r ≡ g r)
    → (y >>= f) ≡ (y >>= g)
bind_same (ok r) f g h = h r
bind_same (err e) f g h = refl

-- What follows a result, with the rest of the loop.
follows : Floats → (n_retry i : ℕ) → Json → Result Error Json → Result Error Json
follows floats n_retry i r rest = after_attempt floats n_retry i r >>= λ next. elim next [
  | return_ v ↦ ok v
  | break_ v ↦ map_error floats v
  | continue_ ↦ rest
]

loop_same :
    (remote remote' : Remote) (n_retry : ℕ)
    → remote.floats ≡ remote'.floats
    → ((j : ℕ) → j ≤ n_retry → attempt_result remote j ≡ attempt_result remote' j)
    → (i left : ℕ) (last : Json) → i + left ≤ n_retry + 1
    → operation_loop remote n_retry i left last ≡ operation_loop remote' n_retry i left last
unfolding operation_loop follows
loop_same remote remote' n_retry f h i zero last bound = ap (λ x. map_error x last) f
loop_same remote remote' n_retry f h i (suc left) last bound =
    ap
      (λ y.
        y >>= λ r. follows remote.floats n_retry i r (operation_loop remote n_retry (i + 1) left r))
      (h i (omega (arith, bound)))
    ∙ bind_same (attempt_result remote' i)
        (λ r. follows remote.floats n_retry i r (operation_loop remote n_retry (i + 1) left r))
        (λ r. follows remote'.floats n_retry i r (operation_loop remote' n_retry (i + 1) left r))
        (λ r.
          ap (λ x. follows x n_retry i r (operation_loop remote n_retry (i + 1) left r)) f
          ∙ ap (follows remote'.floats n_retry i r)
              (loop_same remote remote' n_retry f h (i + 1) left r (omega (arith, bound))))

-- An operation makes at most one attempt and `n_retry` retries: its result depends on no other attempt.
pub submit_run_operation_bound :
    (remote remote' : Remote) (local : Result Error Json) (n_retry : ℕ)
    → remote.floats ≡ remote'.floats
    → ((j : ℕ) → j ≤ n_retry → attempt_result remote j ≡ attempt_result remote' j)
    → submit_run_operation remote local false (pos n_retry)
      ≡ submit_run_operation remote' local false (pos n_retry)
unfolding submit_run_operation
submit_run_operation_bound remote remote' local n_retry f h =
    loop_same remote remote' n_retry f h 0 (n_retry + 1) null (omega arith)
