-- ===== src/Accounts/Service.antt =====
-- accounts/service.py: registration, authorization, connection, health and retirement. `parse_persona`
-- is the validation of pydantic, whose `none` is its exception.
use account_pool.Base.{
  String, true, false, not, ◌&&◌, Option, none, some, List, [], or_else, is_some, if◌then◌else◌,
}
use account_pool.Domain.Json.{Fields, end}
use account_pool.Domain.Enums.{LifecycleState, HealthStatus, DecisionOutcome}
use account_pool.Domain.Models.{
  Account, Persona, default_authorization, default_health, default_compliance,
}
use account_pool.Adapters.Interface.{AdapterSession, AdapterCall, AuthState, ComplianceState}
use account_pool.Runtime.Errors.{Error}
use account_pool.Runtime.World.{Env}
use account_pool.Runtime.Monad.{Prog, pure, or_raise, now, get_adapter, invoke, ◌>>=◌, ◌>>◌}
use account_pool.Db.Accounts.{
  add_account, update_account, add_connection, get_connection, delete_connection,
}
use account_pool.Db.Audit.{Entry, record_event}
use account_pool.Vault.{store_credentials, store_under, delete_secret}
use account_pool.Locking.{require_account}
use account_pool.Actions.Context.{given, load_session}
use account_pool.Accounts.Status.{
  recompute_status, parse_platform, parse_scopes, parse_auth_type, parse_provider,
}
use account_pool.Accounts.Identity.{mint_account_id}

abbrev pub account_entry : String → String → String → Entry
account_entry caller verb account_id = record {
  actor = caller;
  verb = verb;
  outcome = DecisionOutcome.allow;
  account_id = some account_id;
  action_id = none;
  denial_code = none;
  platform_result = none;
  policy_snapshot = none;
}

-- What `authenticate` tells of an account.
unfoldable pub authenticated : AuthState → Account → Account
authenticated auth a = record a {
  platform_user_id =
      if is_some (given auth.platform_user_id) then auth.platform_user_id else a.platform_user_id;
  display_name =
      if is_some (given auth.display_name) && not (is_some (given a.display_name))
      then auth.display_name
      else a.display_name;
}

-- What `ensure_self_identification` tells of an account.
unfoldable pub complied : ComplianceState → Account → Account
complied state a = record a {
  compliance = record a.compliance {
    bot_flag_set = state.bot_flag_set;
    self_label = state.self_label;
  };
}

abbrev has_fields : Option Fields → Option Fields
has_fields none = none
has_fields (some end) = none
has_fields (some f) = some f

module _ (env : Env) (caller : String) where
  -- The event of a change, which returns the account.
  unfoldable pub note : String → String → Account → Prog Account
  note verb account_id account =
      record_event env (account_entry caller verb account_id) >>= λ _. pure account

  -- The end of every change: the write under the version that was read, and its event.
  unfoldable pub save : String → String → Account → Account → Prog Account
  unfolding note
  save verb account_id old new = update_account env new old.record_version >>= note verb account_id

  -- The account that `register` makes.
  unfoldable pub fresh_account :
      (Fields → Option Persona)
      → String
      → String
      → Option String
      → Option Fields
      → Option String
      → Option (List String)
      → Prog Account
  unfolding mint_account_id
  fresh_account parse_persona platform handle display_name persona pool tags = do
    plat ← or_raise (parse_platform platform) Error.value_error
    account_id ← mint_account_id env plat handle
    persona ← or_raise (parse_persona (or_else persona end)) Error.value_error
    created_at ← now env
    updated_at ← now env
    pure (record {
      account_id = account_id;
      platform = plat;
      handle = handle;
      platform_user_id = none;
      display_name = display_name;
      profile_url = none;
      persona = persona;
      authorization = default_authorization;
      connection_id = none;
      status = LifecycleState.draft;
      requires_approval = true;
      lock = none;
      record_version = 1;
      rate_state = end;
      health = default_health;
      capabilities = none;
      compliance = default_compliance;
      policy_overrides = end;
      tags = or_else tags [];
      pool = pool;
      created_at = created_at;
      updated_at = updated_at;
    })

  -- The rest of it.
  unfoldable pub enter : Account → Prog Account
  unfolding note
  enter account = add_account account >>= λ added. note "account_register" added.account_id added

  -- `register`
  unfoldable pub register :
      (Fields → Option Persona)
      → String
      → String
      → Option String
      → Option Fields
      → Option String
      → Option (List String)
      → Prog Account
  unfolding fresh_account enter
  register parse_persona platform handle display_name persona pool tags =
      fresh_account parse_persona platform handle display_name persona pool tags >>= enter

  -- The frame of every change of an account: it is read, a new one is worked out, and that is saved.
  unfoldable pub change : String → String → (Account → Prog Account) → Prog Account
  unfolding require_account save
  change verb account_id work = do
    account ← require_account account_id
    new ← work account
    save verb account_id account new

  -- The body of `authorize`.
  unfoldable pub authorized :
      String → List String → Option String → Option String → Account → Prog Account
  unfolding recompute_status
  authorized owner consent_scope evidence_ref attested_by account = do
    scopes ← or_raise (parse_scopes consent_scope) Error.value_error
    t ← now env
    pure (
        recompute_status (record account {
          authorization = record {
            authorized = true;
            owner = some owner;
            consent_scope = scopes;
            evidence_ref = evidence_ref;
            attested_by = some (or_else (given attested_by) caller);
            attested_at = some t;
            revoked_at = none;
          };
        }))

  -- `authorize`
  unfoldable pub authorize :
      String → String → List String → Option String → Option String → Prog Account
  unfolding change authorized
  authorize account_id owner consent_scope evidence_ref attested_by =
      change "account_authorize" account_id
        (authorized owner consent_scope evidence_ref attested_by)

  -- The body of `revoke_authorization`.
  unfoldable pub revoked : Account → Prog Account
  revoked account = do
    t ← now env
    pure (record account {
      authorization = record account.authorization { revoked_at = some t };
      status = LifecycleState.suspended;
    })

  -- `revoke_authorization`
  unfoldable pub revoke_authorization : String → Prog Account
  unfolding change revoked
  revoke_authorization account_id = change "account_revoke" account_id revoked

  -- The first half of `connect`: the credentials are stored, and the connection.
  unfoldable pub link :
      String → Fields → Option (List String) → Option String → Account → Prog Account
  unfolding store_credentials add_connection
  link auth_type credentials scopes provider account = do
    kind ← or_raise (parse_auth_type auth_type) Error.value_error
    stored ← store_credentials env account.account_id account.platform kind credentials scopes
    connection ← elim (given provider) [
      | none ↦ pure stored
      | some p ↦ or_raise (parse_provider p) Error.value_error >>= λ k.
          pure (record stored { provider = k })
    ]
    add_connection connection
    pure (record account { connection_id = some connection.connection_id })

  -- The second half: the adapter says who the account is, and marks it.
  unfoldable pub introduce : Fields → Account → Prog Account
  unfolding authenticated complied recompute_status
  introduce credentials linked = do
    adapter ← get_adapter env linked.platform
    let session : AdapterSession = record { account = linked; credentials = credentials }
    auth ← invoke (AdapterCall.authenticate session) (λ h. adapter.on_authenticate h session)
    let known = authenticated auth linked
    let session' : AdapterSession = record { account = known; credentials = credentials }
    state ←
        invoke (AdapterCall.ensure_self_identification session')
          (λ h. adapter.on_ensure_self_identification h session')
    pure (
        recompute_status
          (record (complied state known) { capabilities = some adapter.capabilities }))

  -- `connect`
  unfoldable pub connect :
      String → String → Fields → Option (List String) → Option String → Prog Account
  unfolding change link introduce
  connect account_id auth_type credentials scopes provider =
      change "account_connect" account_id
        (λ account. link auth_type credentials scopes provider account >>= introduce credentials)

  -- The new material of `refresh_credentials` goes under the reference of the connection.
  unfoldable pub restore : Account → Option Fields → Prog Unit
  unfolding get_connection store_under
  restore account fresh = elim (has_fields fresh) [
    | none ↦ pure tt
    | some material ↦ elim (given account.connection_id) [
      | none ↦ pure tt
      | some id ↦ get_connection id >>= λ found. elim found [
        | none ↦ pure tt
        | some conn ↦ store_under env material conn.secret_ref >> pure tt
      ]
    ]
  ]

  -- The body of `refresh_credentials`.
  unfoldable pub refreshed : Account → Prog Account
  unfolding load_session restore
  refreshed account = do
    adapter ← get_adapter env account.platform
    session ← load_session env account
    res ←
        invoke (AdapterCall.refresh_credentials session)
          (λ h. adapter.on_refresh_credentials h session)
    restore account res.new_credentials
    t ← now env
    pure (record account {
      health = record account.health {
        status = if res.auth.ok then HealthStatus.ok else HealthStatus.reauth_needed;
        last_health_at = some t;
      };
    })

  -- `refresh_credentials`
  unfoldable pub refresh_credentials : String → Prog Account
  unfolding change refreshed
  refresh_credentials account_id = change "account_refresh_credentials" account_id refreshed

  -- The body of `health_check`.
  unfoldable pub checked : Account → Prog Account
  unfolding load_session
  checked account = do
    adapter ← get_adapter env account.platform
    session ← load_session env account
    report ← invoke (AdapterCall.health_check session) (λ h. adapter.on_health_check h session)
    t ← now env
    pure (record account {
      health = record {
        status = report.status;
        last_health_at = some t;
        last_error = report.error;
        detail = report.detail;
      };
    })

  -- `health_check`
  unfoldable pub health_check : String → Prog Account
  unfolding change checked
  health_check account_id = change "account_health_check" account_id checked

  -- The body of `retire`.
  abbrev pub retired : Account → Prog Account
  retired account = pure (record account { status = LifecycleState.retired })

  -- `retire`
  unfoldable pub retire : String → Prog Account
  unfolding change
  retire account_id = change "account_retire" account_id retired

  -- The first half of `disconnect`: the secret and the connection.
  unfoldable pub forget : Account → Prog Unit
  unfolding get_connection delete_secret delete_connection
  forget account = elim (given account.connection_id) [
    | none ↦ pure tt
    | some id ↦ get_connection id >>= λ found. elim found [
      | none ↦ pure tt
      | some conn ↦ delete_secret env conn.secret_ref >> delete_connection conn.connection_id
    ]
  ]

  -- The body of `disconnect`.
  unfoldable pub disconnected : Account → Prog Account
  unfolding forget recompute_status
  disconnected account = do
    forget account
    pure (
        recompute_status (record account {
          connection_id = none;
          compliance = record account.compliance { bot_flag_set = false; self_label = none };
        }))

  -- `disconnect`
  unfoldable pub disconnect : String → Prog Account
  unfolding change disconnected
  disconnect account_id = change "account_disconnect" account_id disconnected
