-- ===== src/Server/Rest.antt =====
-- server/rest_admin.py: the handlers of the routes, and the answers.
use account_pool.Base.{
  ℕ, ◌+◌, String, false, not, Option, none, some, List, [], length, if◌then◌else◌,
}
use account_pool.Domain.Json.{Json, Fields, truthy}
use account_pool.Domain.Models.{Account, Persona}
use account_pool.Runtime.Errors.{Error}
use account_pool.Runtime.World.{Env, World}
use account_pool.Runtime.Monad.{Prog, pure, gets, or_raise, ◌>>=◌}
use account_pool.Db.Accounts.{account_of, list_accounts}
use account_pool.Approvals.{list_open}
use account_pool.Adapters.Net.{Network}
use account_pool.Locking.{checkout, checkin}
use account_pool.Actions.Context.{given, lift}
use account_pool.Actions.Decide.{decide_approval}
use account_pool.Accounts.Status.{parse_platform, parse_status}
use account_pool.Accounts.Service.{register, authorize, connect}
use account_pool.Accounts.Patch.{patch}
use account_pool.Server.Views.{Payload, Inventory, summary_list, count_accounts}
use account_pool.Server.Bodies.{
  must, may, text_or, as_text, as_text?, as_fields, as_fields?, as_texts, as_texts?, as_int?,
  as_version, to_updates, fields_or_none,
}

abbrev pub agent : Fields → Prog String
agent body = lift (text_or "agent_name" "admin" body)

-- What a body has under a key
abbrev pub text_at : String → Fields → Prog String
text_at k body = lift (must k body) >>= λ v. lift (as_text v)

abbrev pub text_at? : String → Fields → Prog (Option String)
text_at? k body = lift (as_text? (may k body))

abbrev pub texts_at : String → Fields → Prog (List String)
texts_at k body = lift (must k body) >>= λ v. lift (as_texts v)

abbrev pub texts_at? : String → Fields → Prog (Option (List String))
texts_at? k body = lift (as_texts? (may k body))

-- `body.get("credentials", {})`
abbrev pub credentials_of : Fields → Prog Fields
credentials_of body = lift (fields_or_none "credentials" body)

-- A version that the row of the account does not have, for a negative number.
abbrev pub some_version : String → Option ℕ → World → ℕ
some_version id (some n) w = n
some_version id none w = elim (account_of w.accounts id) [
  | none ↦ 0
  | some a ↦ a.record_version + 1
]

abbrev pub no_accounts : Inventory
no_accounts = record {
  total = 0;
  by_status = [];
  by_platform = [];
  locked = [];
  open_approvals = 0;
}

module _ (parse_persona : Fields → Option Persona) (net : Network) (env : Env) where
  -- The keyword arguments of `authorize`, from a body or from its part.
  unfoldable pub authorize_with : String → String → Fields → Prog Account
  authorize_with caller id body = do
    owner ← text_at "owner" body
    scopes ← texts_at "consent_scope" body
    evidence ← text_at? "evidence_ref" body
    attested ← text_at? "attested_by" body
    authorize env caller id owner scopes evidence attested

  -- Those of `connect`
  unfoldable pub connect_with : String → String → Fields → Prog Account
  connect_with caller id body = do
    kind ← text_at "auth_type" body
    credentials ← credentials_of body
    scopes ← texts_at? "scopes" body
    provider ← text_at? "provider" body
    connect env caller id kind credentials scopes provider

  unfoldable pub register_with : String → Fields → Prog Account
  register_with caller body = do
    platform ← text_at "platform" body
    handle ← text_at "handle" body
    name ← text_at? "display_name" body
    persona ← lift (as_fields? (may "persona" body))
    pool ← text_at? "pool" body
    tags ← texts_at? "tags" body
    register env caller parse_persona platform handle name persona pool tags

  -- `if body.get(key): account = ...`
  unfoldable pub if_asked : (Fields → Prog Account) → Json → Account → Prog Account
  if_asked step v a = if not (truthy v) then pure a else (lift (as_fields v) >>= λ part. step part)

  -- `create_account`
  unfoldable pub created : Fields → Prog Account
  unfolding authorize_with connect_with register_with if_asked
  created body = do
    caller ← agent body
    fresh ← register_with caller body
    granted ← if_asked (authorize_with caller fresh.account_id) (may "authorize" body) fresh
    if_asked (connect_with caller fresh.account_id) (may "connect" body) granted

  -- `AccountService.list`: a status that no account has, selects none.
  unfoldable pub listed :
      Option String → Option String → Option String → Option String → Prog Payload
  unfolding summary_list
  listed platform status pool tag = do
    wanted ← elim (given platform) [
      | none ↦ pure none
      | some p ↦ or_raise (parse_platform p) Error.value_error >>= λ q. pure (some q)
    ]
    found ← elim status [
      | none ↦ list_accounts wanted none pool tag
      | some s ↦ elim (parse_status s) [
        | none ↦ pure []
        | some st ↦ list_accounts wanted (some st) pool tag
      ]
    ]
    shown ← summary_list env found
    pure (Payload.summaries shown)

  module _ (meanwhile : ℕ → World → World) where
    -- `checkout`
    unfoldable pub checked_out : String → Fields → Prog Payload
    checked_out id body = do
      caller ← agent body
      ttl ← lift (as_int? (may "ttl_seconds" body))
      a ← checkout env meanwhile id caller ttl
      pure (Payload.lease a.account_id a.lock a.record_version)

    -- `checkin`
    unfoldable pub checked_in : String → Fields → Prog Payload
    checked_in id body = do
      caller ← agent body
      token ← text_at "lock_token" body
      a ← checkin env id caller token
      pure (Payload.standing a.account_id a.status)

    -- `patch_account`
    unfoldable pub patched_by : String → Fields → Prog Account
    patched_by id body = do
      caller ← agent body
      token ← text_at "lock_token" body
      stated ← lift (must "expected_record_version" body)
      version ← lift (as_version stated)
      wanted ← lift (must "updates" body)
      updates ← lift (as_fields wanted)
      expected ← gets (some_version id version)
      patch parse_persona env caller id token expected (to_updates updates)

    -- `inventory`
    unfoldable pub counted : Prog Payload
    unfolding count_accounts
    counted = do
      accounts ← list_accounts none none none none
      counts ← count_accounts env false accounts no_accounts
      waiting ← list_open env none none
      pure (Payload.inventory (record counts { open_approvals = length waiting }))

    -- `decide`
    unfoldable pub decided_by : String → Fields → Prog Payload
    decided_by id body = do
      decision ← text_at "decision" body
      by ← lift (text_or "decided_by" "admin" body)
      reason ← text_at? "reason" body
      d ← decide_approval env id decision by reason
      pure (Payload.decided d)
