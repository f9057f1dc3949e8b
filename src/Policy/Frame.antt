-- ===== src/Policy/Frame.antt =====
-- What a guard, and so the pipeline, leaves alone: everything but the clock and the two trackers
-- that forget old entries when they are read.
use account_pool.Base.{◌≡◌, List, [], ◌∷◌, ◌++◌, arith}
use account_pool.Runtime.Errors.{Result, ok, raised}
use account_pool.Runtime.World.{World, Env}
use account_pool.Policy.Decisions.{Decision, PolicyResult}
use account_pool.Policy.Context.{GuardContext}
use account_pool.Policy.RateLimit.{check}
use account_pool.Policy.Trackers.{would_coordinate}
use account_pool.Policy.Guards.{
  Guard, account_active, lock, authorization, capability, self_identification, rate_limit,
  manipulation, platform_rules, coordination, autonomy, default_guards,
}
use account_pool.Policy.Engine.{conclude, run_guards, evaluate}
use account_pool.Runtime.Monad.{Prog, proceed}

pub record Untouched (w u : World) : Type 0 where
  pub minted : u.minted ≡ w.minted
  pub accounts : u.accounts ≡ w.accounts
  pub connections : u.connections ≡ w.connections
  pub secrets : u.secrets ≡ w.secrets
  pub drafts : u.drafts ≡ w.drafts
  pub actions : u.actions ≡ w.actions
  pub approvals : u.approvals ≡ w.approvals
  pub audit : u.audit ≡ w.audit
  pub promo_ledger : u.promo_ledger ≡ w.promo_ledger
  pub calls : u.calls ≡ w.calls
  pub notified : u.notified ≡ w.notified

pub Untouched-refl : (w : World) → Untouched w w
Untouched-refl w = ground arith

pub Untouched-trans : {u v w : World} → Untouched u v → Untouched v w → Untouched u w
Untouched-trans a b = ground arith

-- A guard that leaves the rest of the state alone.
abbrev IsFramed : Guard → Type 0
IsFramed g = (ctx : GuardContext) (w : World) → Untouched w (g.evaluate ctx w).1

module _ (env : Env) (ctx : GuardContext) (w : World) where
  account_active-Untouched : Untouched w (account_active ctx w).1
  unfolding account_active
  account_active-Untouched = ground arith

  lock-Untouched : Untouched w (lock env ctx w).1
  unfolding lock
  lock-Untouched = ground arith

  authorization-Untouched : Untouched w (authorization ctx w).1
  unfolding authorization
  authorization-Untouched = ground arith

  capability-Untouched : Untouched w (capability ctx w).1
  unfolding capability
  capability-Untouched = Untouched-refl w

  self_identification-Untouched : Untouched w (self_identification ctx w).1
  unfolding self_identification
  self_identification-Untouched = Untouched-refl w

  rate_limit-Untouched : Untouched w (rate_limit env ctx w).1
  unfolding rate_limit check
  rate_limit-Untouched = ground arith

  manipulation-Untouched : Untouched w (manipulation ctx w).1
  unfolding manipulation
  manipulation-Untouched = Untouched-refl w

  platform_rules-Untouched : Untouched w (platform_rules env ctx w).1
  unfolding platform_rules
  platform_rules-Untouched = ground arith

  coordination-Untouched : Untouched w (coordination env ctx w).1
  unfolding coordination would_coordinate
  coordination-Untouched = ground arith

  autonomy-Untouched : Untouched w (autonomy ctx w).1
  unfolding autonomy
  autonomy-Untouched = Untouched-refl w

-- Each of a list of guards is framed.
abbrev AllFramed : List Guard → Type 0
AllFramed [] = Unit
AllFramed (g ∷ gs) = IsFramed g × AllFramed gs

module _ (env : Env) where
  default_guards-AllFramed : AllFramed (default_guards env)
  unfolding default_guards
  default_guards-AllFramed = (
    account_active-Untouched env,
    (
      lock-Untouched env,
      (
        authorization-Untouched env,
        (
          capability-Untouched env,
          (
            self_identification-Untouched env,
            (
              rate_limit-Untouched env,
              (
                manipulation-Untouched env,
                (
                  platform_rules-Untouched env,
                  (coordination-Untouched env, (autonomy-Untouched env, tt)),
                ),
              ),
            ),
          ),
        ),
      ),
    ),
  )

-- The loop from a guard's result on, if the rest of it is framed.
after-Untouched :
    (rest : List Decision → Prog PolicyResult) (trace : List Decision) (r : Result Decision)
    (w u : World)
    → Untouched w u
    → ((t : List Decision) → Untouched u (rest t u).1)
    → Untouched w
        (proceed (λ d. conclude d.outcome d (trace ++ d ∷ []) (rest (trace ++ d ∷ []))) r u).1
after-Untouched rest trace (raised e) w u h k = h
after-Untouched rest trace (ok d) w u h k = ground (arith, k (trace ++ d ∷ []))

run_guards-Untouched :
    (gs : List Guard) (ctx : GuardContext) (trace : List Decision) (w : World)
    → AllFramed gs
    → Untouched w (run_guards gs ctx trace w).1
unfolding run_guards
run_guards-Untouched [] ctx trace w framed = Untouched-refl w
run_guards-Untouched (g ∷ gs) ctx trace w framed =
    let (r, u) = g.evaluate ctx w in
    after-Untouched (run_guards gs ctx) trace r w u (framed.0 ctx w)
      (λ t. run_guards-Untouched gs ctx t u framed.1)

-- The pipeline of guards changes nothing but the clock and the trackers of the rate and of the
-- coordination, also where a guard raises.
pub evaluate-Untouched :
    (env : Env) (ctx : GuardContext) (w : World) → Untouched w (evaluate env ctx w).1
unfolding evaluate
evaluate-Untouched env ctx w =
    run_guards-Untouched (default_guards env) ctx [] w (default_guards-AllFramed env)
