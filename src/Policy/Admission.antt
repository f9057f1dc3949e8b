-- ===== src/Policy/Admission.antt =====
-- What an ALLOW of the pipeline guarantees.
use account_pool.Base.{◌<◌, ◌≤◌, String, ◌≡◌, ◌∙◌, ◌≢◌, ◌⊎◌, true, false, some, [], arith}
use account_pool.Domain.Json.{truthy_field}
use account_pool.Domain.Enums.{
  ActionType, ConsentScope, DecisionOutcome, PublishMode, mem_verb, action_consent,
}
use account_pool.Domain.Models.{LockLease, permits, is_active}
use account_pool.Runtime.Errors.{ok}
use account_pool.Runtime.World.{World, Env}
use account_pool.Policy.Decisions.{PolicyResult}
use account_pool.Policy.Context.{GuardContext, is_write, is_owned_target}
use account_pool.Policy.Trackers.{is_vote_kind}
use account_pool.Policy.Guards.{default_guards}
use account_pool.Policy.Engine.{evaluate}
use account_pool.Policy.Chain.{Passed, run_guards-Passed}
use account_pool.Policy.Facts.{
  WithinRate, WithinPool, account_active-allow, lock-allow, authorization-allow, capability-allow,
  bot_flag-allow, self_label-allow, manipulation-allow, autonomy-allow, rate_limit-allow,
  coordination-allow, lock-Quiet, authorization-Quiet, capability-Quiet, self_identification-Quiet,
  manipulation-Quiet, platform_rules-Quiet, rate_limit-Quiet, WithinRate-earlier,
  WithinPool-earlier,
}

-- What an allowed request satisfies, in the state `w` that the pipeline started from.
pub record Admitted (env : Env) (ctx : GuardContext) (w : World) : Type 0 where
  pub active : is_active ctx.account ≡ true
  -- the caller holds the lease, with its token, at the reading of the clock
  pub locked :
      is_write ctx ≡ true
      → (l : LockLease) × (ctx.account.lock ≡ some l)
        × (env.time w.ticks < l.expires_at)
        × (l.holder ≡ ctx.caller)
        × (ctx.lock_token ≡ some l.token)
  pub consented :
      (s : ConsentScope) × (action_consent ctx.action_type ≡ some s)
      × (permits ctx.account.authorization s ≡ true)
  pub offered : mem_verb ctx.action_type ctx.policy.allowed_verbs ≡ true
  -- a comment needs a platform with an API
  pub api_comment : ctx.action_type ≡ ActionType.comment → ctx.policy.publish_mode ≡ PublishMode.api
  pub flagged :
      is_write ctx ≡ true
      → ctx.policy.requires_bot_flag ≡ true
      → ctx.account.compliance.bot_flag_set ≡ true
  pub labelled :
      is_write ctx ≡ true
      → ctx.policy.requires_self_label ≡ true
      → (label : String) × (ctx.account.compliance.self_label ≡ some label) × (label ≢ "")
  pub no_vote :
      ctx.action_type ≡ ActionType.react
      → is_vote_kind ctx.react_kind ≡ true
      → ctx.policy.vote_allowed ≡ true
  -- nothing waits for a person
  pub autonomous :
      is_write ctx ≡ true
      → (truthy_field "approve_all_writes" ctx.account.policy_overrides ≡ false)
        × ((is_owned_target ctx ≡ true) ⊎ (ctx.account.requires_approval ≡ false))
  pub within_rate : WithinRate env ctx w w.rate
  pub within_pool : WithinPool env ctx w w.coordination

module _ (env : Env) (ctx : GuardContext) (w v : World) where
  Passed-Admitted : Passed (default_guards env) ctx w v → Admitted env ctx w
  unfolding default_guards
  Passed-Admitted
        (
          d1,
          u1,
          e1,
          a1,
          (
            d2,
            u2,
            e2,
            a2,
            (
              d3,
              u3,
              e3,
              a3,
              (
                d4,
                u4,
                e4,
                a4,
                (
                  d5,
                  u5,
                  e5,
                  a5,
                  (
                    d6,
                    u6,
                    e6,
                    a6,
                    (d7, u7, e7, a7, (d8, u8, e8, a8, (d9, u9, e9, a9, (d10, u10, e10, a10, end)))),
                  ),
                ),
              ),
            ),
          ),
        ) =
      let (same, active) = account_active-allow env ctx w u1 d1 e1 a1 in
      let (offered, api) = capability-allow env ctx u3 u4 d4 e4 a4 in
      let quiet = lock-Quiet env ctx u1 u2 d2 e2 in
      let s3 = authorization-Quiet env ctx u2 u3 d3 e3 in
      let s4 = capability-Quiet env ctx u3 u4 d4 e4 in
      let s5 = self_identification-Quiet env ctx u4 u5 d5 e5 in
      let before : u5 ≡ u2 = s5 ∙ s4 ∙ s3 in
      let (t6, c6) = rate_limit-Quiet env ctx u5 u6 d6 e6 in
      let s7 = manipulation-Quiet env ctx u6 u7 d7 e7 in
      let s8 = platform_rules-Quiet env ctx u7 u8 d8 e8 in
      let after : u8 ≡ u6 = s8 ∙ s7 in
      let ticks5 : w.ticks ≤ u5.ticks = ground arith in
      let ticks8 : w.ticks ≤ u8.ticks = ground arith in
      record {
        active = active;
        locked = λ write. rw same at (lock-allow env ctx u1 u2 d2 e2 a2 write);
        consented = authorization-allow env ctx u2 u3 d3 e3 a3;
        offered = offered;
        api_comment = api;
        flagged = bot_flag-allow env ctx u4 u5 d5 e5 a5;
        labelled = self_label-allow env ctx u4 u5 d5 e5 a5;
        no_vote = manipulation-allow env ctx u6 u7 d7 e7 a7;
        autonomous = autonomy-allow env ctx u9 u10 d10 e10 a10;
        within_rate =
            WithinRate-earlier env ctx w u5 ticks5 (ground arith)
              (rate_limit-allow env ctx u5 u6 d6 e6 a6);
        within_pool =
            WithinPool-earlier env ctx w u8 ticks8 (ground arith)
              (coordination-allow env ctx u8 u9 d9 e9 a9);
      }

  -- A request that the pipeline of guards allows is `Admitted`: the account is active; for a write the
  -- caller holds its unexpired lease, by token; the owner consents to the verb; the policy offers it; a vote
  -- is allowed by the policy; a write needs no person's approval; and the rate limit and the limit of
  -- accounts on one target hold.
  pub evaluate-Admitted :
      (p : PolicyResult)
      → evaluate env ctx w ≡ (ok p, v)
      → p.outcome ≡ DecisionOutcome.allow
      → Admitted env ctx w
  unfolding evaluate
  evaluate-Admitted p e a =
      Passed-Admitted (run_guards-Passed (default_guards env) ctx [] w v (p, e, a))
