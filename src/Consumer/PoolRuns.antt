-- ===== src/Consumer/PoolRuns.antt =====
-- contrib/sqs/consumer/service.go: the parallel branch keeps within its slots and comes to an end, and the sequential
-- branch is one of its runs.
use mathlib.Core.Path.{subst}
use o4x.Prelude.{
  ℕ, zero, suc, ◌+◌, ◌*◌, ◌≤◌, ◌<◌, ◌≡◌, refl, sym, ap, ◌⊎◌, inl, inr, false, List, [], ◌∷◌, ◌++◌,
  length, Bool-cases, arith,
}
use o4x.Consumer.Message.{RawMessage}
use o4x.Consumer.Service.{
  ConsumerWorker, ConsumerWorld, receive, run_handler, checked, process_message, process_each,
}
use o4x.Consumer.Pool.{
  Task, starting, handling, settling, Pool, pool, Step, begin, stop_loop, enter, handle, settle,
  Steps, done, next,
}

-- How many steps the goroutines have before them.
abbrev task_work : Task → ℕ
task_work (starting m) = 3
task_work (handling msg) = 2
task_work (settling msg e) = 1

work_of : List Task → ℕ
work_of [] = 0
work_of (t ∷ ts) = task_work t + work_of ts

work_of-append : (ts us : List Task) → work_of (ts ++ us) ≡ work_of ts + work_of us
unfolding work_of
work_of-append [] us = omega arith
work_of-append (t ∷ ts) us = omega (arith, work_of-append ts us)

module _ {Q H : Type 0} (s : ConsumerWorker Q H) (slots : ℕ) where
  -- What is left to do.
  unfoldable pub work : Pool Q H → ℕ
  unfolding work_of
  work p = 4 * length p.waiting + work_of p.active

  Step-work : {p q : Pool Q H} → Step s slots p q → work q < work p
  unfolding work work_of
  Step-work {p} (begin m ms w c free e) =
      subst (λ x. work x < work p) (sym e)
        (omega (arith, ap length w, work_of-append p.active (starting m ∷ [])))
  Step-work {p} (stop_loop m ms n w c e) =
      subst (λ x. work x < work p) (sym e) (omega (arith, ap length w))
  Step-work {p} (enter before after m a e) =
      subst (λ x. work x < work p) (sym e)
        (omega (
          arith,
          work_of-append before (starting m ∷ after),
          work_of-append before (handling (receive s m) ∷ after),
          ap work_of a,
        ))
  Step-work {p} (handle before after msg a e) =
      let x = (run_handler s msg p.world).1 in
      subst (λ x. work x < work p) (sym e)
        (omega (
          arith,
          work_of-append before (handling msg ∷ after),
          work_of-append before (settling msg x ∷ after),
          ap work_of a,
        ))
  Step-work {p} (settle before after msg x a e) =
      subst (λ x. work x < work p) (sym e)
        (omega (
          arith,
          work_of-append before (settling msg x ∷ after),
          work_of-append before after,
          ap work_of a,
        ))

  -- How many steps a run has.
  unfoldable pub count : {p q : Pool Q H} → Steps s slots p q → ℕ
  count done = 0
  count (next st sts) = suc (count sts)

  count-work : {p q : Pool Q H} (r : Steps s slots p q) → count r + work q ≤ work p
  unfolding count
  count-work done = omega arith
  count-work (next st sts) = omega (arith, Step-work st, count-work sts)

  abbrev pub IsFinished : Pool Q H → Type 0
  IsFinished p = (p.waiting ≡ []) × (p.active ≡ [])

  -- What is not finished has a step.
  step_or_IsFinished :
      0 < slots → (p : Pool Q H) → IsFinished p ⊎ ((q : Pool Q H) × Step s slots p q)
  step_or_IsFinished some_slot p = by p.waiting p.active refl refl
    where
      by :
          (ms : List RawMessage) (ts : List Task)
          → p.waiting ≡ ms
          → p.active ≡ ts
          → IsFinished p ⊎ ((q : Pool Q H) × Step s slots p q)
      by ms (starting m ∷ ts) w a = inr (_, enter [] ts m a refl)
      by ms (handling msg ∷ ts) w a = inr (_, handle [] ts msg a refl)
      by ms (settling msg e ∷ ts) w a = inr (_, settle [] ts msg e a refl)
      by [] [] w a = inl (w, a)
      by (m ∷ ms) [] w a = elim (Bool-cases (s.cancelled p.world.checks)) [
        | inl c ↦ inr (_, stop_loop m ms p.world.checks w c refl)
        | inr c ↦ inr (_, begin m ms w c (omega (arith, ap length a)) refl)
      ]

  finish :
      0 < slots
      → (n : ℕ) (p : Pool Q H) → work p ≤ n
      → (q : Pool Q H) × Steps s slots p q × IsFinished q
  finish some_slot zero p h = elim (step_or_IsFinished some_slot p) [
    | inl f ↦ (p, done, f)
    | inr (q, st) ↦ absurd (omega (arith, Step-work st))
  ]
  finish some_slot (suc n) p h = elim (step_or_IsFinished some_slot p) [
    | inl f ↦ (p, done, f)
    | inr (q, st) ↦
        let (x, sts, f) = finish some_slot n q (omega (arith, Step-work st)) in (x, next st sts, f)
  ]

  -- With at least one slot the parallel branch always ends: a run takes at most four steps for each message and
  -- what its goroutines have left, and every run can go on until all goroutines have ended.
  pub pool_ends :
      (p q : Pool Q H) (r : Steps s slots p q)
      → 0 < slots
      → (count r ≤ work p) × ((x : Pool Q H) × Steps s slots q x × IsFinished x)
  pool_ends p q r some_slot =
      (omega (arith, count-work r), finish some_slot (work q) q (omega arith))

  alone :
      (m : RawMessage) (ms : List RawMessage) (w : ConsumerWorld Q H)
      → 0 < slots
      → s.cancelled w.checks ≡ false
      → {x : Pool Q H} → Steps s slots (pool s slots ms [] (process_message s m (checked s w))) x
      → Steps s slots (pool s slots (m ∷ ms) [] w) x
  unfolding process_message
  alone m ms w some_slot c rest = next (begin m ms refl c some_slot refl) (
      next (enter [] [] m refl refl) (
        next (handle [] [] (receive s m) refl refl)
          (next (settle [] [] (receive s m) _ refl refl) rest)))

  -- The sequential branch does what one run of the parallel one does: the goroutines one after the other.
  pub process_each-Steps :
      (ms : List RawMessage) (w : ConsumerWorld Q H)
      → 0 < slots
      → Steps s slots (pool s slots ms [] w) (pool s slots [] [] (process_each s ms w))
  unfolding process_each
  process_each-Steps [] w some_slot = done
  process_each-Steps (m ∷ ms) w some_slot = elim (Bool-cases (s.cancelled w.checks)) [
    | inl c ↦ rw (c, process_each) (next (stop_loop m ms w.checks refl c refl) done)
    | inr c ↦
        rw (c, process_each)
          (alone m ms w some_slot c
            (process_each-Steps ms (process_message s m (checked s w)) some_slot))
  ]
