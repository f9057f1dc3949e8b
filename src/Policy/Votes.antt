-- ===== src/Policy/Votes.antt =====
-- Voting: what policy/guards.py and policy/policies.py do together with a vote.
use account_pool.Base.{◌≡◌, refl, ◌≢◌, true, false, List, [], ◌∷◌, ◌++◌, arith}
use account_pool.Domain.Enums.{Platform, ActionType, DecisionOutcome, DenialCode}
use account_pool.Domain.Models.{Account, PlatformPolicy}
use account_pool.Runtime.Errors.{Result, ok, raised}
use account_pool.Runtime.World.{World, Env}
use account_pool.Runtime.Monad.{Prog, proceed}
use account_pool.Policy.Decisions.{Decision, PolicyResult, deny}
use account_pool.Policy.Policies.{get_platform_policy, tighten, resolve_policy}
use account_pool.Policy.Context.{GuardContext}
use account_pool.Policy.RateLimit.{check}
use account_pool.Policy.Trackers.{is_vote_kind}
use account_pool.Policy.Guards.{
  Guard, account_active, lock, authorization, capability, self_identification, rate_limit,
  manipulation, platform_rules, coordination, autonomy, default_guards,
}
use account_pool.Policy.Engine.{conclude, run_guards, evaluate}

-- A verdict that does not queue a request.
abbrev NoRoute : Result Decision × World → Type 0
NoRoute m = (d : Decision) → m.0 ≡ ok d → d.outcome ≢ DecisionOutcome.route_to_approval

abbrev NeverRoutes : List Guard → GuardContext → Type 0
NeverRoutes [] ctx = Unit
NeverRoutes (g ∷ gs) ctx = ((w : World) → NoRoute (g.evaluate ctx w)) × NeverRoutes gs ctx

module _ (env : Env) (ctx : GuardContext) (w : World) where
  account_active-NoRoute : NoRoute (account_active ctx w)
  unfolding account_active
  account_active-NoRoute d e = ground arith

  lock-NoRoute : NoRoute (lock env ctx w)
  unfolding lock
  lock-NoRoute d e = ground arith

  authorization-NoRoute : NoRoute (authorization ctx w)
  unfolding authorization
  authorization-NoRoute d e = ground arith

  capability-NoRoute : NoRoute (capability ctx w)
  unfolding capability
  capability-NoRoute d e = ground arith

  self_identification-NoRoute : NoRoute (self_identification ctx w)
  unfolding self_identification
  self_identification-NoRoute d e = ground arith

  rate_limit-NoRoute : NoRoute (rate_limit env ctx w)
  unfolding rate_limit check
  rate_limit-NoRoute d e = ground arith

abbrev Denies : Guard → GuardContext → Type 0
Denies g ctx =
    (w : World)
    → (d : Decision) × (u : World) × (g.evaluate ctx w ≡ (ok d, u))
      × (d.outcome ≡ DecisionOutcome.deny)

-- A guard that denies behind guards that do not queue: the result, if there is one, is a denial.
run_guards-denied :
    (before after : List Guard) (g : Guard) (ctx : GuardContext) (trace : List Decision) (w : World)
    → NeverRoutes before ctx
    → Denies g ctx
    → (p : PolicyResult) → (run_guards (before ++ g ∷ after) ctx trace w).0 ≡ ok p
    → p.outcome ≡ DecisionOutcome.deny
unfolding run_guards
run_guards-denied [] after g ctx trace w free denies p e =
    let (d, u, ran, denied) = denies w in ground arith
run_guards-denied (b ∷ before) after g ctx trace w free denies p e =
    step (b.evaluate ctx w).0 (b.evaluate ctx w).1 (free.0 w) e
      (λ d u. run_guards-denied before after g ctx (trace ++ d ∷ []) u free.1 denies p)
  where
    rest : List Decision → Prog PolicyResult
    rest = run_guards (before ++ g ∷ after) ctx

    verdict :
        (o : DecisionOutcome) (d : Decision) (t : List Decision) (u : World)
        → o ≢ DecisionOutcome.route_to_approval
        → (conclude o d t (rest t) u).0 ≡ ok p
        → ((rest t u).0 ≡ ok p → p.outcome ≡ DecisionOutcome.deny)
        → p.outcome ≡ DecisionOutcome.deny
    verdict DecisionOutcome.allow d t u unrouted e ih = ih e
    verdict DecisionOutcome.deny d t u unrouted e ih = ground arith
    verdict DecisionOutcome.route_to_approval d t u unrouted e ih = absurd (unrouted refl)

    step :
        (r : Result Decision) (u : World)
        → ((d : Decision) → r ≡ ok d → d.outcome ≢ DecisionOutcome.route_to_approval)
        → (proceed (λ d. conclude d.outcome d (trace ++ d ∷ []) (rest (trace ++ d ∷ []))) r u).0
          ≡ ok p
        → ((d : Decision) (u : World)
            → (rest (trace ++ d ∷ []) u).0 ≡ ok p
            → p.outcome ≡ DecisionOutcome.deny)
        → p.outcome ≡ DecisionOutcome.deny
    step (raised x) u unrouted e ih = cc
    step (ok d) u unrouted e ih =
        verdict d.outcome d (trace ++ d ∷ []) u (unrouted d refl) e (ih d u)

vote_blocked : Decision
vote_blocked = deny "manipulation" DenialCode.vote_manipulation_blocked

manipulation-Denies :
    (ctx : GuardContext)
    → ctx.action_type ≡ ActionType.react
    → is_vote_kind ctx.react_kind ≡ true
    → ctx.policy.vote_allowed ≡ false
    → Denies (record { name = "manipulation"; evaluate = manipulation }) ctx
unfolding manipulation vote_blocked
manipulation-Denies ctx react vote off w = (vote_blocked, w, ground arith, refl)

baseline-no_vote : (p : Platform) → (get_platform_policy p).vote_allowed ≡ false
unfolding get_platform_policy
baseline-no_vote Platform.reddit = refl
baseline-no_vote Platform.mastodon = refl
baseline-no_vote _ = refl

-- No override allows votes.
pub resolve_policy-no_vote :
    (a : Account) (p : PlatformPolicy) → resolve_policy a ≡ ok p → p.vote_allowed ≡ false
unfolding resolve_policy tighten
resolve_policy-no_vote a p e = ground (arith, baseline-no_vote a.platform)

module _ (env : Env) (ctx : GuardContext) (w : World) where
  -- A reaction with a vote kind is denied, on every platform, for every account and whatever its
  -- overrides say, where the policy in the context is the one that resolves and no guard raises.
  pub vote_never_passes :
      ctx.action_type ≡ ActionType.react
      → is_vote_kind ctx.react_kind ≡ true
      → resolve_policy ctx.account ≡ ok ctx.policy
      → (p : PolicyResult) → (evaluate env ctx w).0 ≡ ok p
      → p.outcome ≡ DecisionOutcome.deny
  unfolding evaluate default_guards
  vote_never_passes react vote policy p e =
      run_guards-denied
        (record { name = "account_active"; evaluate = account_active }
          ∷ record { name = "lock"; evaluate = lock env }
          ∷ record { name = "authorization"; evaluate = authorization }
          ∷ record { name = "capability"; evaluate = capability }
          ∷ record { name = "self_identification"; evaluate = self_identification }
          ∷ record { name = "rate_limit"; evaluate = rate_limit env }
          ∷ [])
        (record { name = "platform_rules"; evaluate = platform_rules env }
          ∷ record { name = "coordination"; evaluate = coordination env }
          ∷ record { name = "autonomy"; evaluate = autonomy }
          ∷ [])
        (record { name = "manipulation"; evaluate = manipulation }) ctx [] w
        (
          account_active-NoRoute env ctx,
          (
            lock-NoRoute env ctx,
            (
              authorization-NoRoute env ctx,
              (
                capability-NoRoute env ctx,
                (self_identification-NoRoute env ctx, (rate_limit-NoRoute env ctx, tt)),
              ),
            ),
          ),
        )
        (manipulation-Denies ctx react vote (resolve_policy-no_vote ctx.account ctx.policy policy))
        p e
