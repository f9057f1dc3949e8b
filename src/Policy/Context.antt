-- ===== src/Policy/Context.antt =====
-- policy/context.py: `GuardContext`. The trackers that it refers to are those of the shared state.
use Prim.Native.String.{◌++◌ as append}
use account_pool.Base.{String, Bool, true, false, Option, none, some}
use account_pool.Domain.Enums.{ActionType, is_write_action, platform_value}
use account_pool.Domain.Models.{Account, Capabilities, ContentDraft, PlatformPolicy, TargetRef}

pub record GuardContext : Type 0 where
  pub account : Account
  pub action_type : ActionType
  pub capabilities : Capabilities
  pub policy : PlatformPolicy
  pub caller : String
  pub lock_token : Option String
  pub draft : Option ContentDraft
  pub target : Option TargetRef
  pub react_kind : Option String

-- `GuardContext.is_write`
abbrev pub is_write : GuardContext → Bool
is_write ctx = is_write_action ctx.action_type

-- f"{platform}:{target.raw}"
unfoldable pub coordination_key : Account → TargetRef → String
coordination_key account t = append (platform_value account.platform) (append ":" t.raw)

-- `GuardContext.target_key`
unfoldable pub target_key : GuardContext → String
unfolding coordination_key
target_key ctx = elim ctx.target [ none ↦ "" | some t ↦ coordination_key ctx.account t ]

-- `GuardContext.is_owned_target`
abbrev pub is_owned_target : GuardContext → Bool
is_owned_target ctx = elim ctx.action_type [
  | ActionType.publish ↦ true
  | _ ↦ elim ctx.target [ none ↦ false | some t ↦ t.is_owned ]
]
