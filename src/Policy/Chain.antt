-- ===== src/Policy/Chain.antt =====
-- The loop of policy/engine.py as a chain of guards that allow.
use account_pool.Base.{◌≡◌, refl, ap, List, [], ◌∷◌, ◌++◌, arith, ◌↔◌}
use account_pool.Domain.Enums.{DecisionOutcome}
use account_pool.Runtime.Errors.{Result, ok, raised}
use account_pool.Runtime.World.{World}
use account_pool.Runtime.Monad.{Prog, proceed}
use account_pool.Policy.Decisions.{Decision, PolicyResult, allow}
use account_pool.Policy.Context.{GuardContext}
use account_pool.Policy.Guards.{Guard}
use account_pool.Policy.Engine.{result, conclude, run_guards}

-- Every guard of a list allows, each in the state that the one before it left.
abbrev pub Passed : List Guard → GuardContext → World → World → Type 0
Passed [] ctx w v = w ≡ v
Passed (g ∷ gs) ctx w v =
    (d : Decision) × (u : World) × (g.evaluate ctx w ≡ (ok d, u))
    × (d.outcome ≡ DecisionOutcome.allow)
    × Passed gs ctx u v

abbrev pub Allows : Result PolicyResult × World → World → Type 0
Allows m v = (p : PolicyResult) × (m ≡ (ok p, v)) × (p.outcome ≡ DecisionOutcome.allow)

pub conclude-Allows :
    (o : DecisionOutcome) (d : Decision) (trace : List Decision) (rest : Prog PolicyResult)
    (u v : World)
    → Allows (conclude o d trace rest u) v
    → (o ≡ DecisionOutcome.allow) × Allows (rest u) v
conclude-Allows DecisionOutcome.deny d trace rest u v (p, e, a) = ground arith
conclude-Allows DecisionOutcome.route_to_approval d trace rest u v (p, e, a) = ground arith
conclude-Allows DecisionOutcome.allow d trace rest u v h = (refl, h)

pub run_guards-Passed :
    (gs : List Guard) (ctx : GuardContext) (trace : List Decision) (w v : World)
    → Allows (run_guards gs ctx trace w) v
    → Passed gs ctx w v
unfolding run_guards
run_guards-Passed [] ctx trace w v (p, e, a) = ap (λ (m : Result PolicyResult × World). m.1) e
run_guards-Passed (g ∷ gs) ctx trace w v h =
    step (g.evaluate ctx w).0 (g.evaluate ctx w).1 refl h
      (λ d u. run_guards-Passed gs ctx (trace ++ d ∷ []) u v)
  where
    step :
        (r : Result Decision) (u : World)
        → g.evaluate ctx w ≡ (r, u)
        → Allows
            (proceed
              (λ d. conclude d.outcome d (trace ++ d ∷ []) (run_guards gs ctx (trace ++ d ∷ [])))
              r
              u)
            v
        → ((d : Decision) (u : World)
            → Allows (run_guards gs ctx (trace ++ d ∷ []) u) v
            → Passed gs ctx u v)
        → Passed (g ∷ gs) ctx w v
    step (raised x) u e (p, q, a) ih = cc
    step (ok d) u e a ih =
        let (o, rest) =
          conclude-Allows d.outcome d (trace ++ d ∷ []) (run_guards gs ctx (trace ++ d ∷ [])) u v
            a in
        (d, u, e, o, ih d u rest)

pub run_guards-Allows :
    (gs : List Guard) (ctx : GuardContext) (trace : List Decision) (w v : World)
    → Passed gs ctx w v
    → Allows (run_guards gs ctx trace w) v
unfolding run_guards
run_guards-Allows [] ctx trace w v e =
    (result DecisionOutcome.allow (allow "engine") trace, ground arith, refl)
run_guards-Allows (g ∷ gs) ctx trace w v (d, u, e, o, rest) =
    rw e (simp o (run_guards-Allows gs ctx (trace ++ d ∷ []) u v rest))

-- A list of guards allows, with a final state, exactly when each guard allows in turn, from the state
-- that the one before left to that final state.
pub run_guards-allow_iff :
    (gs : List Guard) (ctx : GuardContext) (trace : List Decision) (w v : World)
    → ((p : PolicyResult) × (run_guards gs ctx trace w ≡ (ok p, v))
        × (p.outcome ≡ DecisionOutcome.allow))
      ↔ Passed gs ctx w v
run_guards-allow_iff gs ctx trace w v =
    (run_guards-Passed gs ctx trace w v, run_guards-Allows gs ctx trace w v)
