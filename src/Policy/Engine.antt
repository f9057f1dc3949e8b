-- ===== src/Policy/Engine.antt =====
-- policy/engine.py: the guards in order, up to the first that denies or routes.
use account_pool.Base.{List, [], ◌∷◌, ◌++◌}
use account_pool.Domain.Enums.{DecisionOutcome}
use account_pool.Runtime.World.{Env}
use account_pool.Runtime.Monad.{Prog, pure, ◌>>=◌}
use account_pool.Policy.Decisions.{Decision, PolicyResult, allow}
use account_pool.Policy.Context.{GuardContext}
use account_pool.Policy.Guards.{Guard, default_guards}

abbrev pub result : DecisionOutcome → Decision → List Decision → PolicyResult
result outcome decision trace = record { outcome = outcome; decision = decision; trace = trace }

-- What the loop does with a verdict: it returns, or goes on with the rest of the guards.
abbrev pub conclude :
    DecisionOutcome → Decision → List Decision → Prog PolicyResult → Prog PolicyResult
conclude DecisionOutcome.deny d trace rest = pure (result DecisionOutcome.deny d trace)
conclude DecisionOutcome.route_to_approval d trace rest =
    pure (result DecisionOutcome.route_to_approval d trace)
conclude DecisionOutcome.allow d trace rest = rest

-- The loop of `PolicyEngine.evaluate`, with the trace so far.
unfoldable pub run_guards : List Guard → GuardContext → List Decision → Prog PolicyResult
run_guards [] ctx trace = pure (result DecisionOutcome.allow (allow "engine") trace)
run_guards (guard ∷ guards) ctx trace = guard.evaluate ctx >>= λ d.
    conclude d.outcome d (trace ++ d ∷ []) (run_guards guards ctx (trace ++ d ∷ []))

-- `PolicyEngine().evaluate`
unfoldable pub evaluate : Env → GuardContext → Prog PolicyResult
unfolding run_guards default_guards
evaluate env ctx = run_guards (default_guards env) ctx []
