-- ===== src/Tests/Fixtures.antt =====
-- A pool of one account on Mastodon, with the adapter of adapters/fake.py.
use account_pool.Base.{
  ℕ, ◌+◌, ◌*◌, true, false, none, some, [], ◌∷◌, arith, eq_iff, str_eq, Bool-cases,
}
use account_pool.Table.{find}
use account_pool.Locking.Asked.{KeyedRows}
use account_pool.Base.Int.{pos}
use account_pool.Domain.Json.{Fields, end, field, text}
use account_pool.Domain.Enums.{Platform, ActionType, ConsentScope, LifecycleState, DecisionOutcome}
use account_pool.Domain.Models.{
  Account, ContentDraft, LockLease, default_persona, default_health, default_compliance,
  default_authorization,
}
use account_pool.Runtime.World.{World, Env, Cipher}
use account_pool.Adapters.Fake.{fake_adapter, fake_capabilities, decimal}
use account_pool.Db.Accounts.{account_row}
use account_pool.Policy.Context.{GuardContext}
use account_pool.Policy.Policies.{mastodon_policy}
use account_pool.Policy.Decisions.{PolicyResult, allow}
use account_pool.Policy.Window.{no_events}
use account_pool.Policy.Ratio.{no_posts}
use account_pool.Actions.Submit.{WriteRequest}

-- The clock ticks once a second.
abbrev pub second : ℕ
second = 1000000

-- A cipher that hides nothing, for one payload.
abbrev pub payload : Fields
payload = field "token" (text "s3cret") end

abbrev pub cipher : Cipher
cipher = record {
  generate_key = λ n. "key";
  encrypt = λ key n plain. plain;
  decrypt = λ key token. some token;
  dumps = λ fields. "{\"token\": \"s3cret\"}";
  loads = λ plain. some payload;
  master_key = "master";
}

abbrev pub env : Env
env = record {
  time = λ n. second * (1000 + n);
  random = λ n. decimal n n;
  registry = λ p. some (fake_adapter p);
  cipher = cipher;
  dry_run = false;
  default_lock_ttl = pos 900;
  approval_ttl = pos 86400;
  has_notifier = true;
  blocked_containers = [];
}

abbrev pub lease : LockLease
lease = record {
  holder = "ann";
  token = "t1";
  acquired_at = second * 900;
  expires_at = second * 1800;
}

abbrev pub account : Account
account = record {
  account_id = "acct_mastodon_pool_1";
  platform = Platform.mastodon;
  handle = "pool";
  platform_user_id = none;
  display_name = none;
  profile_url = none;
  persona = default_persona;
  authorization = record default_authorization {
    authorized = true;
    consent_scope = ConsentScope.publish ∷ ConsentScope.react ∷ [];
  };
  connection_id = none;
  status = LifecycleState.active;
  requires_approval = true;
  lock = some lease;
  record_version = 3;
  rate_state = end;
  health = default_health;
  capabilities = none;
  compliance = record default_compliance { bot_flag_set = true };
  policy_overrides = end;
  tags = [];
  pool = none;
  created_at = 0;
  updated_at = 0;
}

abbrev pub draft : ContentDraft
draft = record {
  draft_id = "d1";
  account_id = account.account_id;
  body = "hello";
  title = none;
  media_refs = [];
  disclosure = none;
  revision = 1;
  created_at = 0;
  updated_at = 0;
}

abbrev pub world : World
world = record {
  ticks = 0;
  minted = 0;
  accounts = (account.account_id, account_row account) ∷ [];
  connections = [];
  secrets = [];
  drafts = (draft.draft_id, draft) ∷ [];
  actions = [];
  approvals = [];
  audit = [];
  rate = no_events;
  coordination = record { hits = λ key. [] };
  promo_ledger = no_posts;
  calls = [];
  notified = [];
}

-- Ann publishes the draft.
abbrev pub request : WriteRequest
request = record {
  action_type = ActionType.publish;
  lock_token = "t1";
  draft = some draft;
  target = none;
  react_kind = none;
  idempotency_key = some "k1";
  scheduled_for = none;
}

-- The same, as the guards see it.
abbrev pub context : GuardContext
context = record {
  account = account;
  action_type = ActionType.publish;
  capabilities = fake_capabilities Platform.mastodon;
  policy = mastodon_policy;
  caller = "ann";
  lock_token = some "t1";
  draft = some draft;
  target = none;
  react_kind = none;
}

abbrev pub all_allow : PolicyResult
all_allow = record {
  outcome = DecisionOutcome.allow;
  decision = allow "engine";
  trace =
      allow "account_active"
      ∷ allow "lock"
      ∷ allow "authorization"
      ∷ allow "capability"
      ∷ allow "self_identification"
      ∷ allow "rate_limit"
      ∷ allow "manipulation"
      ∷ allow "platform_rules"
      ∷ allow "coordination"
      ∷ allow "autonomy"
      ∷ [];
}

pub world-KeyedRows : KeyedRows world
unfolding find
world-KeyedRows k row e =
    ground (arith, eq_iff account.account_id k, Bool-cases (str_eq account.account_id k))
