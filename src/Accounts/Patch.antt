-- ===== src/Accounts/Patch.antt =====
-- accounts/service.py: `patch`. The updates are a list of assignments; `invalid` stands for a value
-- that the validation of pydantic refuses.
use account_pool.Base.{ℕ, String, Bool, not, Option, none, some, List, [], ◌∷◌, ◌==◌, if◌then◌else◌}
use account_pool.Domain.Json.{Fields}
use account_pool.Domain.Models.{Account, Persona, held_by}
use account_pool.Runtime.Errors.{Error, Result, ok, raised}
use account_pool.Runtime.World.{Env}
use account_pool.Runtime.Monad.{Prog, raise, or_raise, now, ◌>>=◌}
use account_pool.Actions.Context.{lift}
use account_pool.Accounts.Status.{parse_status}
use account_pool.Accounts.Service.{change}

-- An entry of `updates`.
pub data Update : Type 0 where
  persona policy_overrides : Fields → Update
  tags : List String → Update
  pool : Option String → Update
  requires_approval : Bool → Update
  status : String → Update
  invalid : Update
  -- a key that is not allowed
  unknown : String → Update

module _ (parse_persona : Fields → Option Persona) where
  -- One turn of the loop.
  unfoldable pub apply_update : Update → Account → Result Account
  apply_update (Update.persona f) a = elim (parse_persona f) [
    | none ↦ raised Error.value_error
    | some p ↦ ok (record a { persona = p })
  ]
  apply_update (Update.policy_overrides f) a = ok (record a { policy_overrides = f })
  apply_update (Update.tags ts) a = ok (record a { tags = ts })
  apply_update (Update.pool p) a = ok (record a { pool = p })
  apply_update (Update.requires_approval b) a = ok (record a { requires_approval = b })
  apply_update (Update.status s) a = elim (parse_status s) [
    | none ↦ raised Error.value_error
    | some st ↦ ok (record a { status = st })
  ]
  apply_update Update.invalid a = raised Error.value_error
  apply_update (Update.unknown k) a = raised Error.invalid_state

  -- The loop.
  unfoldable pub apply_updates : List Update → Account → Result Account
  unfolding apply_update
  apply_updates [] a = ok a
  apply_updates (u ∷ rest) a = elim (apply_update u a) [
    | raised e ↦ raised e
    | ok b ↦ apply_updates rest b
  ]

  module _ (env : Env) where
    -- The body of `patch`: the lease and the version are checked before anything is assigned.
    unfoldable pub patched : String → String → ℕ → List Update → Account → Prog Account
    unfolding apply_updates
    patched caller lock_token expected_version updates account = do
      lock ← or_raise account.lock Error.lock_held
      t ← now env
      if not (held_by lock caller lock_token t)
          then raise Error.lock_held
          else if not (account.record_version == expected_version)
          then raise Error.conflict
          else lift (apply_updates updates account)

    -- `patch`
    unfoldable pub patch : String → String → String → ℕ → List Update → Prog Account
    unfolding change patched
    patch caller account_id lock_token expected_version updates =
        change env caller "account_patch" account_id
          (patched caller lock_token expected_version updates)
