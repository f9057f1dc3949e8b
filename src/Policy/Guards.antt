-- ===== src/Policy/Guards.antt =====
-- policy/guards.py and policy/platform_rules.py.
use account_pool.Base.{
  String, Bool, true, false, not, ◌&&◌, Option, ◌||◌, none, some, List, [], ◌∷◌, str_eq, any,
  if◌then◌else◌, or_else,
}
use account_pool.Base.Int.{pos}
use account_pool.Domain.Json.{num, get_field, truthy_field}
use account_pool.Domain.Enums.{
  Platform, ActionType, PublishMode, DenialCode, verb_value, mem_verb, action_consent,
}
use account_pool.Domain.Models.{lease_active, permits, is_active}
use account_pool.Runtime.Errors.{Error}
use account_pool.Runtime.World.{Env}
use account_pool.Runtime.Monad.{Prog, pure, gets, or_raise, now, ◌>>=◌}
use account_pool.Policy.Decisions.{Decision, allow, deny, route}
use account_pool.Policy.Context.{GuardContext, is_write, target_key, is_owned_target}
use account_pool.Policy.Promo.{is_promotional}
use account_pool.Policy.RateLimit.{check}
use account_pool.Policy.Trackers.{is_vote_kind, would_exceed, would_coordinate}

pub record Guard : Type 0 where
  pub name : String
  pub evaluate : GuardContext → Prog Decision

-- `AccountActiveGuard`
unfoldable pub account_active : GuardContext → Prog Decision
account_active ctx = pure (
    if is_active ctx.account
    then allow "account_active"
    else deny "account_active" DenialCode.account_not_active)

-- `AuthorizationGuard`: a verb with no entry in `ACTION_CONSENT` raises `KeyError`.
unfoldable pub authorization : GuardContext → Prog Decision
authorization ctx = do
  scope ← or_raise (action_consent ctx.action_type) Error.key_error
  pure (
      if permits ctx.account.authorization scope
      then allow "authorization"
      else deny "authorization" DenialCode.not_authorized)

-- What `CapabilityGuard` asks of a verb that the policy allows.
unfoldable pub verb_capability : ActionType → GuardContext → Decision
verb_capability ActionType.publish ctx =
    if ctx.capabilities.can_publish
    then allow "capability"
    else deny "capability" DenialCode.capability_unsupported
verb_capability ActionType.comment ctx =
    if not ctx.capabilities.can_comment
    then deny "capability" DenialCode.capability_unsupported
    else elim ctx.policy.publish_mode [
      | PublishMode.api ↦ allow "capability"
      | _ ↦ deny "capability" DenialCode.publish_mode_manual
    ]
verb_capability ActionType.react ctx =
    if ctx.capabilities.can_react && ctx.policy.react_allowed
    then allow "capability"
    else deny "capability" DenialCode.capability_unsupported
verb_capability ActionType.read ctx =
    if ctx.capabilities.can_read
    then allow "capability"
    else deny "capability" DenialCode.capability_unsupported
verb_capability ActionType.monitor ctx =
    if ctx.capabilities.can_read
    then allow "capability"
    else deny "capability" DenialCode.capability_unsupported
verb_capability ActionType.search ctx =
    if ctx.capabilities.can_search
    then allow "capability"
    else deny "capability" DenialCode.capability_unsupported
verb_capability ActionType.draft ctx = deny "capability" DenialCode.capability_unsupported

-- `CapabilityGuard`
unfoldable pub capability : GuardContext → Prog Decision
unfolding verb_capability
capability ctx = pure (
    if mem_verb ctx.action_type ctx.policy.allowed_verbs
    then verb_capability ctx.action_type ctx
    else deny "capability" DenialCode.capability_unsupported)

-- `not c.self_label`
abbrev pub is_blank : Option String → Bool
is_blank none = true
is_blank (some label) = str_eq label ""

-- `SelfIdentificationGuard`; an empty label is none.
unfoldable pub self_identification : GuardContext → Prog Decision
self_identification ctx = pure (
    if not (is_write ctx)
    then allow "self_identification"
    else if ctx.policy.requires_bot_flag && not ctx.account.compliance.bot_flag_set
    then deny "self_identification" DenialCode.bot_identification_required
    else if ctx.policy.requires_self_label && is_blank ctx.account.compliance.self_label
    then deny "self_identification" DenialCode.bot_identification_required
    else allow "self_identification")

-- `ManipulationGuard`
unfoldable pub manipulation : GuardContext → Prog Decision
manipulation ctx = pure (elim ctx.action_type [
  | ActionType.react ↦
      if is_vote_kind ctx.react_kind && not ctx.policy.vote_allowed
      then deny "manipulation" DenialCode.vote_manipulation_blocked
      else allow "manipulation"
  | _ ↦ allow "manipulation"
])

-- `AutonomyGuard`
unfoldable pub autonomy : GuardContext → Prog Decision
autonomy ctx = pure (
    if not (is_write ctx)
    then allow "autonomy"
    else if truthy_field "approve_all_writes" ctx.account.policy_overrides
    then route "autonomy"
    else if is_owned_target ctx
    then allow "autonomy"
    else if ctx.account.requires_approval
    then route "autonomy"
    else allow "autonomy")

module _ (env : Env) where
  -- `LockGuard`, the verdict for a write at a moment
  unfoldable pub lock_at : GuardContext → Prog Decision
  lock_at ctx = elim ctx.account.lock [
    | none ↦ pure (deny "lock" DenialCode.lock_required)
    | some lock ↦ now env >>= λ t. pure (
        if not (lease_active lock t)
        then deny "lock" DenialCode.lock_required
        else if not (str_eq lock.holder ctx.caller)
        then deny "lock" DenialCode.lock_held_by_other
        else elim ctx.lock_token [
          | none ↦ deny "lock" DenialCode.lock_required
          | some token ↦
              if str_eq token lock.token then allow "lock" else deny "lock" DenialCode.lock_required
        ])
  ]

  -- `LockGuard`
  unfoldable pub lock : GuardContext → Prog Decision
  unfolding lock_at
  lock ctx = if not (is_write ctx) then pure (allow "lock") else lock_at ctx

  -- `RateLimitGuard`
  unfoldable pub rate_limit : GuardContext → Prog Decision
  rate_limit ctx = do
    let verb = verb_value ctx.action_type
    allowed ←
        check env ctx.account.account_id verb
          (or_else (get_field verb ctx.policy.rate_per_minute) (num (pos 0)))
    pure (if allowed then allow "rate_limit" else deny "rate_limit" DenialCode.rate_limited)

  -- The block list of `_reddit_rules`; a container that is empty is none.
  unfoldable pub is_blocked : GuardContext → Bool
  is_blocked ctx = elim ctx.target [
    | none ↦ false
    | some t ↦ elim t.container [
      | none ↦ false
      | some c ↦ not (str_eq c "") && any (str_eq c) env.blocked_containers
    ]
  ]

  unfoldable pub is_promotional_request : GuardContext → Bool
  is_promotional_request ctx = elim ctx.draft [
    | none ↦ false
    | some d ↦ is_promotional d ctx.account
  ]

  -- `_reddit_rules`
  unfoldable pub reddit_rules : GuardContext → Prog Decision
  unfolding is_blocked is_promotional_request
  reddit_rules ctx =
      if is_blocked ctx then pure (deny "platform_rules" DenialCode.subreddit_rule) else do
        exceeds ←
            gets
              (λ w. would_exceed ctx.account.account_id ctx.policy.self_promo_ratio w.promo_ledger)
        pure (
            if is_promotional_request ctx && exceeds
            then deny "platform_rules" DenialCode.self_promo_ratio
            else allow "platform_rules")

  -- `PlatformRulesGuard` with `evaluate_platform_rules`
  unfoldable pub platform_rules : GuardContext → Prog Decision
  unfolding reddit_rules
  platform_rules ctx =
      if not (is_write ctx) then pure (allow "platform_rules") else elim ctx.account.platform [
        | Platform.reddit ↦ reddit_rules ctx
        | _ ↦ pure (allow "platform_rules")
      ]

  -- `CoordinationGuard`
  unfoldable pub coordination : GuardContext → Prog Decision
  coordination ctx =
      if not (is_write ctx) || is_owned_target ctx then pure (allow "coordination") else do
        blocked ← would_coordinate env (target_key ctx) ctx.account.account_id
        pure (
            if blocked
            then deny "coordination" DenialCode.coordination_blocked
            else allow "coordination")

  -- `DEFAULT_GUARDS`
  unfoldable pub default_guards : List Guard
  default_guards =
      record { name = "account_active"; evaluate = account_active }
      ∷ record { name = "lock"; evaluate = lock }
      ∷ record { name = "authorization"; evaluate = authorization }
      ∷ record { name = "capability"; evaluate = capability }
      ∷ record { name = "self_identification"; evaluate = self_identification }
      ∷ record { name = "rate_limit"; evaluate = rate_limit }
      ∷ record { name = "manipulation"; evaluate = manipulation }
      ∷ record { name = "platform_rules"; evaluate = platform_rules }
      ∷ record { name = "coordination"; evaluate = coordination }
      ∷ record { name = "autonomy"; evaluate = autonomy }
      ∷ []
