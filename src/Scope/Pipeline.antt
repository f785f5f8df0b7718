-- ===== src/Scope/Pipeline.antt =====
-- Pipelines are composed step by step, and a scoped step closes before the next one.
use fancy_kit.Common.{◌≡◌, refl, ap, ◌∙◌, true, List, [], ◌∷◌, ◌++◌}
use fancy_kit.Common.{fun_ext, if_cases}
use fancy_kit.Scope.{
  Scope, Result, returned, threw, Scoped, PipelineStep, and_next, run_scope, run_step, execute,
  pipe, pipe_scoped,
}
use fancy_kit.Scope.Cleanup.{run_scope_cleans}

module _ {ℓ} {V : Type ℓ} where
  and_next_assoc :
      (f g : V → Scoped V) (r : Scope × Result V)
      → and_next (λ v s. and_next g (f v s)) r ≡ and_next g (and_next f r)
  and_next_assoc f g (s, returned v) = refl
  and_next_assoc f g (s, threw e) = refl

  execute-append :
      (xs ys : List (PipelineStep V)) (v : V) (s : Scope)
      → execute (xs ++ ys) v s ≡ and_next (execute ys) (execute xs v s)
  unfolding execute
  execute-append [] ys v s = refl
  execute-append (x ∷ xs) ys v s =
      ap (λ f. and_next f (run_step x v s)) (fun_ext λ w. fun_ext λ t. execute-append xs ys w t)
      ∙ and_next_assoc (execute xs) (execute ys) (run_step x v s)

  and_next_nil : (r : Scope × Result V) → and_next (execute []) r ≡ r
  unfolding execute
  and_next_nil (s, returned v) = refl
  and_next_nil (s, threw f) = refl

  one_more :
      (step : PipelineStep V) (steps : List (PipelineStep V)) (v : V) (s : Scope)
      → execute (steps ++ step ∷ []) v s ≡ and_next (run_step step) (execute steps v s)
  unfolding execute
  one_more step steps v s =
      execute-append steps (step ∷ []) v s
      ∙ ap (λ f. and_next f (execute steps v s))
          (fun_ext λ w. fun_ext λ t. and_next_nil (run_step step w t))

  -- `pipe` adds a step that runs on the value of the pipeline so far in the same scope; `pipeScoped`
  -- adds one that runs in a scope of its own, whose cleanups have run before anything follows. A
  -- pipeline that throws skips the step.
  pub pipe_runs :
      (operation : V → Scoped V) (steps : List (PipelineStep V)) (v : V) (s : Scope)
      → (execute (pipe operation steps) v s ≡ and_next operation (execute steps v s))
        × (execute (pipe_scoped operation steps) v s
            ≡ and_next (λ w. run_scope (operation w)) (execute steps v s))
  unfolding pipe pipe_scoped run_step
  pipe_runs operation steps v s = (one_more _ steps v s, one_more _ steps v s)

  abbrev pub Children : List (PipelineStep V) → Type 0
  Children [] = Unit
  Children (x ∷ xs) = (x.child ≡ true) × Children xs

  Keeps : Scope → Scope × Result V → Type 0
  Keeps s r = (r.0.cleanup ≡ s.cleanup) × (r.0.phase ≡ s.phase)

  next-Keeps :
      (next : V → Scoped V) (s : Scope) (r : Scope × Result V)
      → Keeps s r
      → ((w : V) (t : Scope) → Keeps t (next w t))
      → Keeps s (and_next next r)
  unfolding Keeps
  next-Keeps next s (t, returned w) (c, p) h = (let k = h w t in (k.0 ∙ c, k.1 ∙ p))
  next-Keeps next s (t, threw f) k h = k

  child-Keeps :
      (step : PipelineStep V) (v : V) (s : Scope) → step.child ≡ true → Keeps s (run_step step v s)
  unfolding run_step Keeps
  child-Keeps step v s e =
      let closed = run_scope_cleans (step.operation v) s in
      if_cases (λ (f : Scoped V). ((f s).0.cleanup ≡ s.cleanup) × ((f s).0.phase ≡ s.phase))
        step.child (λ _. (ap (λ r. r.0.cleanup) closed, ap (λ r. r.0.phase) closed)) λ n. cc

  -- A pipeline of scoped steps leaves no cleanup behind in the scope that it runs in.
  pub scoped_steps_keep :
      (steps : List (PipelineStep V)) (v : V) (s : Scope)
      → Children steps
      → ((execute steps v s).0.cleanup ≡ s.cleanup) × ((execute steps v s).0.phase ≡ s.phase)
  unfolding execute Keeps
  scoped_steps_keep [] v s c = (refl, refl)
  scoped_steps_keep (x ∷ xs) v s (e, c) =
      next-Keeps (execute xs) s (run_step x v s) (child-Keeps x v s e)
        (λ w t. scoped_steps_keep xs w t c)
