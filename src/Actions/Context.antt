-- ===== src/Actions/Context.antt =====
-- actions/service.py: the lookups, the guard's context and the resolution of a target.
use account_pool.Base.{String, Option, none, some, str_eq, or_else, if◌then◌else◌}
use account_pool.Domain.Json.{Fields, end}
use account_pool.Domain.Enums.{ActionType}
use account_pool.Domain.Models.{Account, ContentDraft, TargetRef}
use account_pool.Adapters.Interface.{AdapterSession, AdapterCall}
use account_pool.Runtime.Errors.{Error, Result}
use account_pool.Runtime.World.{Env}
use account_pool.Runtime.Monad.{Prog, pure, gets, or_raise, get_adapter, invoke, ◌>>=◌}
use account_pool.Vault.{load_or_none}
use account_pool.Db.Accounts.{get_connection}
use account_pool.Db.Records.{get_draft}
use account_pool.Policy.Policies.{resolve_policy}
use account_pool.Policy.Context.{GuardContext}

-- An optional text under `if`: an empty one counts as none.
abbrev pub given : Option String → Option String
given none = none
given (some s) = if str_eq s "" then none else some s

-- A result that was computed, or its exception.
abbrev pub lift : {A : Type 0} → Result A → Prog A
lift r w = (r, w)

-- `_get_draft`
unfoldable pub require_draft : String → Prog ContentDraft
unfolding get_draft
require_draft id = get_draft id >>= λ found. or_raise found Error.not_found

-- `_get_draft(draft_id) if draft_id else None`
unfoldable pub draft_if : Option String → Prog (Option ContentDraft)
unfolding require_draft
draft_if id = elim (given id) [
  | none ↦ pure none
  | some d ↦ require_draft d >>= λ draft. pure (some draft)
]

module _ (env : Env) where
  abbrev session_of : Account → Fields → AdapterSession
  session_of account credentials = record { account = account; credentials = credentials }

  -- `_load_session`: where anything fails the session has no credentials.
  unfoldable pub load_session : Account → Prog AdapterSession
  unfolding get_connection load_or_none
  load_session account = elim (given account.connection_id) [
    | none ↦ pure (session_of account end)
    | some id ↦ get_connection id >>= λ found. elim found [
      | none ↦ pure (session_of account end)
      | some conn ↦ gets (λ w. session_of account (or_else (load_or_none env conn w) end))
    ]
  ]

  -- `_build_ctx`
  unfoldable pub build_ctx :
      Account
      → ActionType
      → String
      → Option String
      → Option ContentDraft
      → Option TargetRef
      → Option String
      → Prog GuardContext
  build_ctx account action_type caller lock_token draft target react_kind = do
    adapter ← get_adapter env account.platform
    policy ← lift (resolve_policy account)
    pure (record {
      account = account;
      action_type = action_type;
      capabilities = adapter.capabilities;
      policy = policy;
      caller = caller;
      lock_token = lock_token;
      draft = draft;
      target = target;
      react_kind = react_kind;
    })

  -- `_resolve`
  unfoldable pub resolve : Account → String → Prog TargetRef
  unfolding load_session
  resolve account raw = do
    adapter ← get_adapter env account.platform
    session ← load_session account
    invoke (AdapterCall.resolve_target session raw)
        (λ history. adapter.on_resolve_target history session raw)
