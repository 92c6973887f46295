-- ===== src/Handler/Running.antt =====
-- core/module/handler/stdHandler.go: the loop over `h.steps`, refined to relations that do not mention
-- it: all steps run, each on the context that the one before left, or the first that fails ends them.
use beckn_onix.Base.{List, [], ◌∷◌, ◌≡◌, refl, ap, sym, subst, ◌∙◌, ◌↔◌}
use beckn_onix.Model.Error.{GoError}
use beckn_onix.Model.Result.{ok, err}
use beckn_onix.Model.Context.{StepContext}
use beckn_onix.Handler.Steps.{Outcome, Step}
use beckn_onix.Handler.Serving.{run_steps}

-- Every step succeeds, and they lead from the first context to the last.
pub data Ran : List Step → StepContext → StepContext → Type 0 where
  all_ran : {ctx : StepContext} → Ran [] ctx ctx
  then_ran :
      {x : Step} {xs : List Step} {ctx mid last : StepContext}
      → x ctx ≡ (mid, ok tt)
      → Ran xs mid last
      → Ran (x ∷ xs) ctx last

-- A step fails with this error, all before it succeed, and no other runs.
pub data Failed : List Step → StepContext → StepContext → GoError → Type 0 where
  fails :
      {x : Step} {xs : List Step} {ctx last : StepContext} {e : GoError}
      → x ctx ≡ (last, err e)
      → Failed (x ∷ xs) ctx last e
  then_fails :
      {x : Step} {xs : List Step} {ctx mid last : StepContext} {e : GoError}
      → x ctx ≡ (mid, ok tt)
      → Failed xs mid last e
      → Failed (x ∷ xs) ctx last e

-- The second runs on what the first leaves, if the first succeeds.
abbrev and_then : Outcome → Step → Outcome
and_then (ctx, err e) step = (ctx, err e)
and_then (ctx, ok u) step = step ctx

run_steps-cons :
    (x : Step) (xs : List Step) (ctx : StepContext)
    → run_steps (x ∷ xs) ctx ≡ and_then (x ctx) (run_steps xs)
unfolding run_steps
run_steps-cons x xs ctx = same (x ctx)
  where
    same :
        (o : Outcome)
        → (let (c, r) = o in
            elim r as (λ _. Outcome) [ err e ↦ (c, err e) | ok _ ↦ run_steps xs c ])
          ≡ and_then o (run_steps xs)
    same (c, err e) = refl
    same (c, ok u) = refl

-- What the relations say of an outcome.
abbrev pub IsOutcome : List Step → StepContext → Outcome → Type 0
IsOutcome xs ctx (last, err e) = Failed xs ctx last e
IsOutcome xs ctx (last, ok u) = Ran xs ctx last

pub run_steps-IsOutcome : (xs : List Step) (ctx : StepContext) → IsOutcome xs ctx (run_steps xs ctx)
unfolding run_steps
run_steps-IsOutcome [] ctx = all_ran
run_steps-IsOutcome (x ∷ xs) ctx =
    subst (IsOutcome (x ∷ xs) ctx) (sym (run_steps-cons x xs ctx))
      (stepped (λ mid. run_steps-IsOutcome xs mid) (x ctx) refl)
  where
    longer :
        (mid : StepContext) (o : Outcome)
        → x ctx ≡ (mid, ok tt)
        → IsOutcome xs mid o
        → IsOutcome (x ∷ xs) ctx o
    longer mid (last, err e) here ran = then_fails here ran
    longer mid (last, ok u) here ran = then_ran here ran

    stepped :
        ((mid : StepContext) → IsOutcome xs mid (run_steps xs mid))
        → (o : Outcome) → x ctx ≡ o
        → IsOutcome (x ∷ xs) ctx (and_then o (run_steps xs))
    stepped rest (mid, err e) here = fails here
    stepped rest (mid, ok u) here = longer mid (run_steps xs mid) here (rest mid)

run_steps-Ran :
    {xs : List Step} {ctx last : StepContext} → Ran xs ctx last → run_steps xs ctx ≡ (last, ok tt)
unfolding run_steps
run_steps-Ran all_ran = refl
run_steps-Ran (then_ran {x} {xs} {ctx} here ran) =
    run_steps-cons x xs ctx ∙ (ap (λ o. and_then o (run_steps xs)) here ∙ run_steps-Ran ran)

run_steps-Failed :
    {xs : List Step} {ctx last : StepContext} {e : GoError}
    → Failed xs ctx last e
    → run_steps xs ctx ≡ (last, err e)
run_steps-Failed (fails {x} {xs} {ctx} here) =
    run_steps-cons x xs ctx ∙ ap (λ o. and_then o (run_steps xs)) here
run_steps-Failed (then_fails {x} {xs} {ctx} here ran) =
    run_steps-cons x xs ctx ∙ (ap (λ o. and_then o (run_steps xs)) here ∙ run_steps-Failed ran)

-- The loop over the steps succeeds with a context exactly if every step succeeds, each on the context
-- that the one before left, and the last leaves this context. It fails with an error exactly if a
-- step fails with this error behind steps that all succeed; the steps behind it do not run.
pub run_steps_iff :
    (xs : List Step) (ctx last : StepContext) (e : GoError)
    → ((run_steps xs ctx ≡ (last, ok tt)) ↔ Ran xs ctx last)
      × ((run_steps xs ctx ≡ (last, err e)) ↔ Failed xs ctx last e)
run_steps_iff xs ctx last e = (
  (λ same. subst (IsOutcome xs ctx) same (run_steps-IsOutcome xs ctx), run_steps-Ran),
  (λ same. subst (IsOutcome xs ctx) same (run_steps-IsOutcome xs ctx), run_steps-Failed),
)
