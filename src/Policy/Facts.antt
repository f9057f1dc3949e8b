-- ===== src/Policy/Facts.antt =====
-- What each guard of policy/guards.py guarantees where it allows, and what it leaves of the trackers.
use account_pool.Base.{
  ℕ, ◌<◌, ◌≤◌, String, ◌≡◌, ◌≢◌, ◌⊎◌, inl, inr, true, false, some, ◌∷◌, arith, str_eq, eq_iff,
  length, or_else, eq_refl, Option-cases,
}
use account_pool.Base.Int.{ℤ, not_positive, pos, pos_part}
use account_pool.Domain.Json.{as_int, num, get_field, truthy_field}
use account_pool.Domain.Enums.{
  ActionType, ConsentScope, DecisionOutcome, PublishMode, verb_value, mem_verb, action_consent,
}
use account_pool.Domain.Models.{LockLease, permits, is_active}
use account_pool.Runtime.Errors.{ok}
use account_pool.Runtime.World.{World, Env, RateLimiter, CoordinationTracker}
use account_pool.Policy.Decisions.{Decision}
use account_pool.Policy.Context.{GuardContext, is_write, is_owned_target, target_key}
use account_pool.Policy.RateLimit.{rate_window, rate_key, recent, check}
use account_pool.Policy.Trackers.{
  is_vote_kind, would_coordinate, distinct, hit_accounts, recent_hits, max_distinct_accounts,
}
use account_pool.Policy.Guards.{
  account_active, lock, authorization, capability, self_identification, rate_limit, manipulation,
  platform_rules, coordination, autonomy,
}

-- A positive limit leaves room at a reading of the clock from `w` on, in the limiter `r`.
abbrev pub WithinRate : Env → GuardContext → World → RateLimiter → Type 0
WithinRate env ctx w r =
    let verb = verb_value ctx.action_type in
    (n : ℤ)
    → as_int (or_else (get_field verb ctx.policy.rate_per_minute) (num (pos 0))) ≡ some n
    → not_positive n ≡ false
    → (k : ℕ) × (w.ticks ≤ k)
      × (length (recent rate_window (env.time k) (r.events (rate_key ctx.account.account_id verb)))
          < pos_part n)

-- With this account, few enough accounts of the pool have hit the target lately.
abbrev pub WithinPool : Env → GuardContext → World → CoordinationTracker → Type 0
WithinPool env ctx w c =
    is_write ctx ≡ true
    → is_owned_target ctx ≡ false
    → str_eq (target_key ctx) "" ≡ false
    → (k : ℕ) × (w.ticks ≤ k)
      × (length (
            distinct (
              ctx.account.account_id
              ∷ hit_accounts (recent_hits (env.time k) (c.hits (target_key ctx)))))
          ≤ max_distinct_accounts)

module _ (env : Env) (ctx : GuardContext) (w u : World) (d : Decision) where
  pub account_active-allow :
      account_active ctx w ≡ (ok d, u)
      → d.outcome ≡ DecisionOutcome.allow
      → (u ≡ w) × (is_active ctx.account ≡ true)
  unfolding account_active
  account_active-allow e a = ground arith

  pub lock-allow :
      lock env ctx w ≡ (ok d, u)
      → d.outcome ≡ DecisionOutcome.allow
      → is_write ctx ≡ true
      → (l : LockLease) × (ctx.account.lock ≡ some l)
        × (env.time w.ticks < l.expires_at)
        × (l.holder ≡ ctx.caller)
        × (ctx.lock_token ≡ some l.token)
  unfolding lock
  lock-allow e a write = elim (Option-cases ctx.account.lock) [
    | inl unlocked ↦ ground arith
    | inr (l, held) ↦ elim (Option-cases ctx.lock_token) [
      | inl no_token ↦ ground arith
      | inr (t, token) ↦ (
        l,
        held,
        ground arith,
        ground (arith, eq_iff l.holder ctx.caller),
        ground (arith, eq_iff t l.token),
      )
    ]
  ]

  pub authorization-allow :
      authorization ctx w ≡ (ok d, u)
      → d.outcome ≡ DecisionOutcome.allow
      → (s : ConsentScope) × (action_consent ctx.action_type ≡ some s)
        × (permits ctx.account.authorization s ≡ true)
  unfolding authorization
  authorization-allow e a = elim (Option-cases (action_consent ctx.action_type)) [
    | inl missing ↦ ground arith
    | inr (s, found) ↦ (s, found, ground arith)
  ]

  pub capability-allow :
      capability ctx w ≡ (ok d, u)
      → d.outcome ≡ DecisionOutcome.allow
      → (mem_verb ctx.action_type ctx.policy.allowed_verbs ≡ true)
        × (ctx.action_type ≡ ActionType.comment → ctx.policy.publish_mode ≡ PublishMode.api)
  unfolding capability
  capability-allow e a = ground arith

  pub bot_flag-allow :
      self_identification ctx w ≡ (ok d, u)
      → d.outcome ≡ DecisionOutcome.allow
      → is_write ctx ≡ true
      → ctx.policy.requires_bot_flag ≡ true
      → ctx.account.compliance.bot_flag_set ≡ true
  unfolding self_identification
  bot_flag-allow e a write flag = ground arith

  pub self_label-allow :
      self_identification ctx w ≡ (ok d, u)
      → d.outcome ≡ DecisionOutcome.allow
      → is_write ctx ≡ true
      → ctx.policy.requires_self_label ≡ true
      → (label : String) × (ctx.account.compliance.self_label ≡ some label) × (label ≢ "")
  unfolding self_identification
  self_label-allow e a write wanted = elim (Option-cases ctx.account.compliance.self_label) [
    | inl missing ↦ absurd (ground arith)
    | inr (l, found) ↦ (l, found, λ empty. ground (arith, eq_iff l ""))
  ]

  pub manipulation-allow :
      manipulation ctx w ≡ (ok d, u)
      → d.outcome ≡ DecisionOutcome.allow
      → ctx.action_type ≡ ActionType.react
      → is_vote_kind ctx.react_kind ≡ true
      → ctx.policy.vote_allowed ≡ true
  unfolding manipulation
  manipulation-allow e a react vote = ground arith

  pub autonomy-allow :
      autonomy ctx w ≡ (ok d, u)
      → d.outcome ≡ DecisionOutcome.allow
      → is_write ctx ≡ true
      → (truthy_field "approve_all_writes" ctx.account.policy_overrides ≡ false)
        × ((is_owned_target ctx ≡ true) ⊎ (ctx.account.requires_approval ≡ false))
  unfolding autonomy
  autonomy-allow e a write = ground arith

-- What the guards before the last trackers leave: the trackers, at a later reading of the clock.
pub record Quiet (w u : World) : Type 0 where
  pub ticks : w.ticks ≤ u.ticks
  pub rate : u.rate ≡ w.rate
  pub coordination : u.coordination ≡ w.coordination

module _ (env : Env) (ctx : GuardContext) (w u : World) (d : Decision) where
  pub lock-Quiet : lock env ctx w ≡ (ok d, u) → Quiet w u
  unfolding lock
  lock-Quiet e = ground arith

  pub authorization-Quiet : authorization ctx w ≡ (ok d, u) → u ≡ w
  unfolding authorization
  authorization-Quiet e = ground arith

  pub capability-Quiet : capability ctx w ≡ (ok d, u) → u ≡ w
  unfolding capability
  capability-Quiet e = ground arith

  pub self_identification-Quiet : self_identification ctx w ≡ (ok d, u) → u ≡ w
  unfolding self_identification
  self_identification-Quiet e = ground arith

  pub manipulation-Quiet : manipulation ctx w ≡ (ok d, u) → u ≡ w
  unfolding manipulation
  manipulation-Quiet e = ground arith

  pub platform_rules-Quiet : platform_rules env ctx w ≡ (ok d, u) → u ≡ w
  unfolding platform_rules
  platform_rules-Quiet e = ground arith

  pub rate_limit-Quiet :
      rate_limit env ctx w ≡ (ok d, u) → (w.ticks ≤ u.ticks) × (u.coordination ≡ w.coordination)
  unfolding rate_limit check
  rate_limit-Quiet e = ground arith

  pub rate_limit-allow :
      rate_limit env ctx w ≡ (ok d, u)
      → d.outcome ≡ DecisionOutcome.allow
      → WithinRate env ctx w w.rate
  unfolding rate_limit check
  rate_limit-allow e a n limited positive =
      let key = rate_key ctx.account.account_id (verb_value ctx.action_type) in
      (w.ticks, omega arith, ground (arith, eq_refl key))

  pub coordination-allow :
      coordination env ctx w ≡ (ok d, u)
      → d.outcome ≡ DecisionOutcome.allow
      → WithinPool env ctx w w.coordination
  unfolding coordination would_coordinate
  coordination-allow e a write third keyed =
      (w.ticks, omega arith, ground (arith, eq_refl (target_key ctx)))

-- The facts of the trackers, carried back to an earlier state.
module _ (env : Env) (ctx : GuardContext) (w u : World) (later : w.ticks ≤ u.ticks) where
  pub WithinRate-earlier :
      u.rate ≡ w.rate → WithinRate env ctx u u.rate → WithinRate env ctx w w.rate
  WithinRate-earlier same h n limited positive =
      let (k, after, room) = h n limited positive in (k, omega arith, rw (← same) room)

  pub WithinPool-earlier :
      u.coordination ≡ w.coordination
      → WithinPool env ctx u u.coordination
      → WithinPool env ctx w w.coordination
  WithinPool-earlier same h write third keyed =
      let (k, after, room) = h write third keyed in (k, omega arith, rw (← same) room)
