-- ===== src/Domain/Models.antt =====
-- domain/models.py. A `datetime` is its number of microseconds since the year 1. Texts that only
-- a person reads (`message`, `summary`) are left out.
use account_pool.Base.{
  ℕ, ◌+◌, ◌-◌, ◌*◌, String, Bool, true, false, not, ◌&&◌, Option, none, some, List, [], ltb, leb,
  str_eq, if◌then◌else◌, is_some,
}
use account_pool.Base.Int.{ℤ, pos, negsuc}
use account_pool.Domain.Json.{Fields, end}
use account_pool.Domain.Enums.{
  Platform, ActionType, ConsentScope, LifecycleState, ActionState, ReviewState, PublishMode,
  HealthStatus, AuthType, ConnectionProviderKind, DecisionOutcome, DenialCode, mem_scope,
}

pub record Capabilities : Type 0 where
  pub platform : Platform
  pub publish_mode : PublishMode
  pub can_publish : Bool
  pub can_comment : Bool
  pub can_read : Bool
  pub can_search : Bool
  pub can_react : Bool
  pub can_vote : Bool
  pub supports_media : Bool
  pub requires_bot_flag : Bool
  pub self_label_supported : Bool
  pub max_text_len : Option ℕ
  pub reaction_kinds : List String

pub record Persona : Type 0 where
  pub persona_label : Option String
  pub bio : Option String
  pub topic_scope : List String
  pub owned_domains : List String
  pub voice_notes : Option String
  pub avatar_ref : Option String

abbrev pub default_persona : Persona
default_persona = record {
  persona_label = none;
  bio = none;
  topic_scope = [];
  owned_domains = [];
  voice_notes = none;
  avatar_ref = none;
}

pub record Authorization : Type 0 where
  pub authorized : Bool
  pub owner : Option String
  pub consent_scope : List ConsentScope
  pub evidence_ref : Option String
  pub attested_by : Option String
  pub attested_at : Option ℕ
  pub revoked_at : Option ℕ

abbrev pub default_authorization : Authorization
default_authorization = record {
  authorized = false;
  owner = none;
  consent_scope = [];
  evidence_ref = none;
  attested_by = none;
  attested_at = none;
  revoked_at = none;
}

-- `Authorization.is_effective`
abbrev pub is_effective : Authorization → Bool
is_effective a = a.authorized && not (is_some a.revoked_at)

-- `Authorization.permits`
abbrev pub permits : Authorization → ConsentScope → Bool
permits a scope = is_effective a && mem_scope scope a.consent_scope

pub record LockLease : Type 0 where
  pub holder : String
  pub token : String
  pub acquired_at : ℕ
  pub expires_at : ℕ

-- `LockLease.is_active` at a time
abbrev pub lease_active : LockLease → ℕ → Bool
lease_active l at = ltb at l.expires_at

-- `LockLease.held_by` at a time
abbrev pub held_by : LockLease → String → String → ℕ → Bool
held_by l holder token at = lease_active l at && str_eq l.holder holder && str_eq l.token token

pub record HealthState : Type 0 where
  pub status : HealthStatus
  pub last_health_at : Option ℕ
  pub last_error : Option String
  pub detail : Fields

abbrev pub default_health : HealthState
default_health = record {
  status = HealthStatus.unknown;
  last_health_at = none;
  last_error = none;
  detail = end;
}

pub record ComplianceMarkers : Type 0 where
  pub bot_flag_set : Bool
  pub self_label : Option String
  pub disclosure_profile : Option String

abbrev pub default_compliance : ComplianceMarkers
default_compliance = record { bot_flag_set = false; self_label = none; disclosure_profile = none }

pub record TargetRef : Type 0 where
  pub raw : String
  pub platform : Option Platform
  pub kind : Option String
  pub container : Option String
  pub parent_id : Option String
  pub is_owned : Bool
  pub resolved : Bool

pub record Account : Type 0 where
  pub account_id : String
  pub platform : Platform
  pub handle : String
  pub platform_user_id : Option String
  pub display_name : Option String
  pub profile_url : Option String
  pub persona : Persona
  pub authorization : Authorization
  pub connection_id : Option String
  pub status : LifecycleState
  pub requires_approval : Bool
  pub lock : Option LockLease
  pub record_version : ℕ
  pub rate_state : Fields
  pub health : HealthState
  pub capabilities : Option Capabilities
  pub compliance : ComplianceMarkers
  pub policy_overrides : Fields
  pub tags : List String
  pub pool : Option String
  pub created_at : ℕ
  pub updated_at : ℕ

-- `Account.is_active`
abbrev pub is_active : Account → Bool
is_active a = elim a.status [ LifecycleState.active ↦ true | _ ↦ false ]

pub record Connection : Type 0 where
  pub connection_id : String
  pub account_id : String
  pub platform : Platform
  pub auth_type : AuthType
  pub provider : ConnectionProviderKind
  pub scopes : List String
  pub secret_ref : String
  pub expires_at : Option ℕ
  pub refresh_ref : Option String
  pub created_at : ℕ
  pub updated_at : ℕ

pub record ContentDraft : Type 0 where
  pub draft_id : String
  pub account_id : String
  pub body : String
  pub title : Option String
  pub media_refs : List String
  pub disclosure : Option String
  pub revision : ℕ
  pub created_at : ℕ
  pub updated_at : ℕ

pub record DecisionStep : Type 0 where
  pub guard : String
  pub outcome : DecisionOutcome
  pub denial_code : Option DenialCode

-- adapters/base.py: the results that an adapter returns and that actions and events keep.
pub record ActionResult : Type 0 where
  pub ok : Bool
  pub external_id : Option String
  pub url : Option String
  pub dry_run : Bool
  pub detail : Fields

pub record ReadResult : Type 0 where
  pub items : List Fields
  pub detail : Fields

-- The dumps that `result` and `platform_result` hold.
pub data PlatformResult : Type 0 where
  acted : ActionResult → PlatformResult
  found : ReadResult → PlatformResult

-- `Action.result`: the approval that was queued, the code of an adapter's exception, or a dump.
pub data ActionOutcome : Type 0 where
  queued : String → ActionOutcome
  error : DenialCode → ActionOutcome
  platform : PlatformResult → ActionOutcome

pub record Action : Type 0 where
  pub action_id : String
  pub account_id : String
  pub type : ActionType
  pub target : Option TargetRef
  pub draft_id : Option String
  pub react_kind : Option String
  pub requested_by : String
  pub idempotency_key : Option String
  pub state : ActionState
  pub decision_trace : List DecisionStep
  pub result : Option ActionOutcome
  pub scheduled_for : Option ℕ
  pub created_at : ℕ
  pub updated_at : ℕ

pub record ApprovalItem : Type 0 where
  pub approval_id : String
  pub action_id : String
  pub account_id : String
  pub review_state : ReviewState
  pub pinned_revision : Option ℕ
  pub decided_by : Option String
  pub decided_at : Option ℕ
  pub reason : Option String
  pub created_at : ℕ
  pub expires_at : Option ℕ

-- `ApprovalItem.is_expired` at a time
abbrev pub is_expired : ApprovalItem → ℕ → Bool
is_expired a at = elim a.expires_at [ none ↦ false | some t ↦ ltb t at ]

-- `before` and `after`, which no caller gives, are left out with the message.
pub record AuditEvent : Type 0 where
  pub event_id : String
  pub ts : ℕ
  pub actor : String
  pub verb : String
  pub outcome : DecisionOutcome
  pub account_id : Option String
  pub action_id : Option String
  pub denial_code : Option DenialCode
  pub platform_result : Option PlatformResult
  pub policy_snapshot : Option (List DecisionStep)

-- `rate_per_minute` holds whatever an override put there, so its values are JSON.
pub record PlatformPolicy : Type 0 where
  pub platform : Platform
  pub publish_mode : PublishMode
  pub allowed_verbs : List ActionType
  pub rate_per_minute : Fields
  pub react_allowed : Bool
  pub vote_allowed : Bool
  pub requires_bot_flag : Bool
  pub requires_self_label : Bool
  pub disclosure_required : Bool
  pub self_promo_ratio : ℤ

-- `datetime.max`, in microseconds.
abbrev pub max_time : ℕ
max_time = 315537897599999999

abbrev pub micros : ℕ
micros = 1000000

-- `t + timedelta(seconds=n)`: `none` stands for the `OverflowError` outside the years 1 to 9999.
unfoldable pub add_seconds : ℕ → ℤ → Option ℕ
add_seconds t (pos n) = if leb (t + n * micros) max_time then some (t + n * micros) else none
add_seconds t (negsuc n) = if leb ((n + 1) * micros) t then some (t - (n + 1) * micros) else none
