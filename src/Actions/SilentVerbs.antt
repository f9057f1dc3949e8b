-- ===== src/Actions/SilentVerbs.antt =====
-- actions/service.py: `publish`, `comment` and `react` in a dry run.
use account_pool.Base.{ℕ, String, ◌≡◌, refl, true, Option, none, some, List, arith}
use account_pool.Domain.Enums.{ActionType}
use account_pool.Domain.Models.{Account, Action, ContentDraft, TargetRef}
use account_pool.Runtime.World.{World, Env}
use account_pool.Runtime.Monad.{Prog, get_adapter, invoke, ◌>>=◌}
use account_pool.Adapters.Interface.{Adapter, AdapterCall, AdapterSession}
use account_pool.Adapters.Net.{Network}
use account_pool.Adapters.DryRun.{requests-quiet}
use account_pool.Actions.Context.{resolve, load_session}
use account_pool.Actions.Outcomes.{load_session-quiet}
use account_pool.Db.Accounts.{get_account}
use account_pool.Db.Records.{get_draft}
use account_pool.Locking.{require_account}
use account_pool.Actions.Context.{require_draft}
use account_pool.Actions.Submit.{WriteRequest, submit_write, publish, comment, react}
use account_pool.Actions.Silence.{Silent, Silent-then, quiet-then, submit_write-Silent}

module _ (net : Network) (names : List String) where
  module _ (env : Env) (dry : env.dry_run ≡ true) where
    -- The lookups before a request.
    require_account-quiet : (id : String) (w : World) → (require_account id w).1 ≡ w
    unfolding require_account get_account
    require_account-quiet id w = ground arith

    require_draft-quiet : (id : String) (w : World) → (require_draft id w).1 ≡ w
    unfolding require_draft get_draft
    require_draft-quiet id w = ground arith

    get_adapter-quiet : (account : Account) (w : World) → (get_adapter env account.platform w).1 ≡ w
    get_adapter-quiet account w = ground arith

    ask_adapter : String → Adapter → AdapterSession → Prog TargetRef
    ask_adapter raw adapter session =
        invoke (AdapterCall.resolve_target session raw)
          (λ history. adapter.on_resolve_target history session raw)

    with_adapter : Account → String → Adapter → Prog TargetRef
    with_adapter account raw adapter = load_session env account >>= ask_adapter raw adapter

    resolve-Silent :
        (account : Account) (raw : String) (w : World)
        → Silent net names w (resolve env account raw w).1
    unfolding resolve with_adapter ask_adapter
    resolve-Silent account raw w =
        quiet-then net names w (get_adapter env account.platform w) (with_adapter account raw)
          (get_adapter-quiet account w)
          λ adapter u.
            quiet-then net names u (load_session env account u) (ask_adapter raw adapter)
              (load_session-quiet env u account)
              λ session v.
                requests-quiet net names v.calls (AdapterCall.resolve_target session raw) refl

    publish_request : String → Option String → Option ℕ → ContentDraft → WriteRequest
    publish_request token key at d = record {
      action_type = ActionType.publish;
      lock_token = token;
      draft = some d;
      target = none;
      react_kind = none;
      idempotency_key = key;
      scheduled_for = at;
    }

    target_request :
        ActionType
        → String
        → Option String
        → Option ContentDraft
        → Option String
        → TargetRef
        → WriteRequest
    target_request verb token key d kind t = record {
      action_type = verb;
      lock_token = token;
      draft = d;
      target = some t;
      react_kind = kind;
      idempotency_key = key;
      scheduled_for = none;
    }

    publish_draft :
        String → String → Option String → Option ℕ → Account → ContentDraft → Prog Action
    publish_draft caller token key at account d =
        submit_write env caller account (publish_request token key at d)

    act_on :
        String
        → String
        → ActionType
        → String
        → Option String
        → Option String
        → Account
        → Option ContentDraft
        → Prog Action
    act_on caller raw verb token key kind account d = resolve env account raw >>= λ t.
        submit_write env caller account (target_request verb token key d kind t)

    act_on-Silent :
        (caller raw : String) (verb : ActionType) (token : String) (key kind : Option String)
        (account : Account) (d : Option ContentDraft) (w : World)
        → Silent net names w (act_on caller raw verb token key kind account d w).1
    unfolding act_on
    act_on-Silent caller raw verb token key kind account d w =
        Silent-then net names w (resolve env account raw w)
          (λ t. submit_write env caller account (target_request verb token key d kind t))
          (resolve-Silent account raw w)
          λ t _.
            submit_write-Silent net names env dry caller account
              (target_request verb token key d kind t) (resolve env account raw w).1

    with_draft : String → (Account → ContentDraft → Prog Action) → Account → Prog Action
    with_draft draft f account = require_draft draft >>= f account

    with_draft-Silent :
        (draft : String) (f : Account → ContentDraft → Prog Action)
        → ((account : Account) (d : ContentDraft) (u : World)
            → Silent net names u (f account d u).1)
        → (account : Account) (w : World) → Silent net names w (with_draft draft f account w).1
    unfolding with_draft
    with_draft-Silent draft f rest account w =
        quiet-then net names w (require_draft draft w) (f account) (require_draft-quiet draft w)
          (rest account)

    pub publish-Silent :
        (caller id token draft : String) (key : Option String) (at : Option ℕ) (w : World)
        → Silent net names w (publish env caller id token draft key at w).1
    unfolding publish with_draft publish_draft publish_request
    publish-Silent caller id token draft key at w =
        quiet-then net names w (require_account id w)
          (with_draft draft (publish_draft caller token key at)) (require_account-quiet id w)
          (with_draft-Silent draft (publish_draft caller token key at) λ account d.
            submit_write-Silent net names env dry caller account (publish_request token key at d))

    pub comment-Silent :
        (caller id token raw draft : String) (key : Option String) (w : World)
        → Silent net names w (comment env caller id token raw draft key w).1
    unfolding comment with_draft act_on target_request
    comment-Silent caller id token raw draft key w =
        quiet-then net names w (require_account id w)
          (with_draft draft
            (λ account d. act_on caller raw ActionType.comment token key none account (some d)))
          (require_account-quiet id w)
          (with_draft-Silent draft
            (λ account d. act_on caller raw ActionType.comment token key none account (some d))
            λ account d.
              act_on-Silent caller raw ActionType.comment token key none account (some d))

    pub react-Silent :
        (caller id token raw kind : String) (key : Option String) (w : World)
        → Silent net names w (react env caller id token raw kind key w).1
    unfolding react act_on target_request
    react-Silent caller id token raw kind key w =
        quiet-then net names w (require_account id w)
          (λ account. act_on caller raw ActionType.react token key (some kind) account none)
          (require_account-quiet id w)
          λ account. act_on-Silent caller raw ActionType.react token key (some kind) account none
