-- ===== src/Actions/Retry.antt =====
-- actions/service.py: `_submit_write` given the same idempotency key again.
use Prim.Native.String.{◌++◌ as append}
use account_pool.Base.{
  String, ◌≡◌, refl, Bool, Option, none, some, List, inl, inr, arith, ap, ◌∙◌, Option-cases,
}
use account_pool.Table.{find}
use account_pool.Domain.Enums.{ActionState, ActionType, DecisionOutcome}
use account_pool.Domain.Models.{
  Account, Action, ActionResult, ContentDraft, DecisionStep, TargetRef, PlatformPolicy,
}
use account_pool.Adapters.Interface.{AdapterSession, Adapter}
use account_pool.Runtime.Errors.{Result, ok}
use account_pool.Runtime.World.{World, Env}
use account_pool.Runtime.Monad.{Prog, proceed, get_adapter, ◌>>=◌}
use account_pool.Db.Records.{upsert_action, find_by_idempotency_key}
use account_pool.Db.Keys.{keyed, Ready, upsert-keyed}
use account_pool.Policy.Decisions.{PolicyResult, to_steps, trace_snapshot}
use account_pool.Policy.Policies.{resolve_policy}
use account_pool.Policy.Context.{GuardContext}
use account_pool.Policy.Engine.{evaluate}
use account_pool.Policy.Frame.{evaluate-Untouched}
use account_pool.Actions.Context.{given, lift, load_session, build_ctx}
use account_pool.Actions.Execute.{attempt, dispatch, finish, execute}
use account_pool.Actions.Submit.{
  WriteRequest, by_outcome, replay, new_action, settle, submit_new, submit_write,
}
use account_pool.Actions.Outcomes.{load_session-quiet}
use account_pool.Actions.Gate.{submit_write-replays}
use account_pool.Actions.Keyed.{Keyed, Keyed-then, finish-Keyed, refuse-Keyed, queue-Keyed}

module _ (key : String) (env : Env) where
  dispatch-actions :
      (adapter : Adapter) (session : AdapterSession) (verb : ActionType)
      (draft : Option ContentDraft) (target : Option TargetRef) (kind : Option String)
      (policy : PlatformPolicy) (dry : Bool) (w : World)
      → (dispatch adapter session verb draft target kind policy dry w).1.actions ≡ w.actions
  unfolding dispatch
  dispatch-actions adapter session verb draft target kind policy dry w = ground arith

  get_adapter-actions :
      (a : Account) (w : World) → (get_adapter env a.platform w).1.actions ≡ w.actions
  get_adapter-actions a w = ground arith

  execute-Keyed :
      (action : Action) (account : Account) (draft : Option ContentDraft)
      (target : Option TargetRef) (kind : Option String) (actor : String)
      (snapshot : Option (List DecisionStep)) (w : World)
      → action.idempotency_key ≡ some key
      → Ready key action.action_id w.actions
      → Keyed key action.action_id (execute env action account draft target kind actor snapshot w)
  unfolding execute upsert_action
  execute-Keyed action account draft target kind actor snapshot w has ready =
      let w1 = (upsert_action executing w).1 in
      let id = action.action_id in
      Keyed-then key id w1 (get_adapter env account.platform w1) with_adapter
        (get_adapter-actions account w1) (inl (upsert-keyed key executing w has ready).0)
        λ adapter w2 ready2.
          Keyed-then key id w2 (load_session env account w2) (with_session adapter)
            (ap (λ u. u.actions) (load_session-quiet env w2 account)) ready2
            λ session w3 ready3.
              Keyed-then key id w3 (lift (resolve_policy account) w3) (with_policy adapter session)
                refl ready3
                λ policy w4 ready4.
                  Keyed-then key id w4
                    (attempt
                      (dispatch adapter session action.type draft target kind policy env.dry_run)
                      w4)
                    conclude
                    (dispatch-actions adapter session action.type draft target kind policy
                      env.dry_run w4)
                    ready4
                    λ res w5 ready5.
                      finish-Keyed key env executing account actor snapshot has draft target res w5
                        ready5
    where
      executing : Action
      executing = record action { state = ActionState.executing }

      conclude : Result ActionResult → Prog Action
      conclude = finish env executing account actor snapshot draft target

      with_policy : Adapter → AdapterSession → PlatformPolicy → Prog Action
      with_policy adapter session policy =
          attempt (dispatch adapter session action.type draft target kind policy env.dry_run)
          >>= conclude

      with_session : Adapter → AdapterSession → Prog Action
      with_session adapter session = lift (resolve_policy account) >>= with_policy adapter session

      with_adapter : Adapter → Prog Action
      with_adapter adapter = load_session env account >>= with_session adapter

-- The identifier that the next action gets.
abbrev pub drawn_id : Env → World → String
drawn_id env w = append "act" (append "_" (env.random w.minted))

module _ (env : Env) (caller : String) (account : Account) (r : WriteRequest) (key : String) where
  by_outcome-Keyed :
      (o : DecisionOutcome) (action : Action) (p : PolicyResult) (w : World)
      → action.idempotency_key ≡ some key
      → Ready key action.action_id w.actions
      → Keyed key action.action_id (by_outcome env caller account r action p o w)
  by_outcome-Keyed DecisionOutcome.deny action p w has = refuse-Keyed key env caller action p has w
  by_outcome-Keyed DecisionOutcome.route_to_approval action p w has =
      queue-Keyed key env caller action p has account r.draft w
  by_outcome-Keyed DecisionOutcome.allow action p w has =
      execute-Keyed key env action account r.draft r.target r.react_kind caller
        (some (trace_snapshot p.trace)) w has

  build_ctx-actions :
      (a : Account) (verb : ActionType) (who : String) (token : Option String)
      (draft : Option ContentDraft) (target : Option TargetRef) (kind : Option String) (w : World)
      → (build_ctx env a verb who token draft target kind w).1.actions ≡ w.actions
  unfolding build_ctx
  build_ctx-actions a verb who token draft target kind w = ground arith

  with_result : Action → PolicyResult → Prog Action
  with_result action p =
      settle env caller account r (record action { decision_trace = to_steps p.trace }) p

  with_context : Action → GuardContext → Prog Action
  with_context action ctx = evaluate env ctx >>= with_result action

  with_action : Action → Prog Action
  with_action action =
      build_ctx env account r.action_type caller (some r.lock_token) r.draft r.target r.react_kind
      >>= with_context action

  with_action-Keyed :
      (action : Action) (w : World)
      → action.idempotency_key ≡ some key
      → Ready key action.action_id w.actions
      → Keyed key action.action_id (with_action action w)
  unfolding with_action with_context with_result settle
  with_action-Keyed action w has ready =
      let id = action.action_id in
      Keyed-then key id w
        (build_ctx env account r.action_type caller (some r.lock_token) r.draft r.target
          r.react_kind w)
        (with_context action)
        (build_ctx-actions account r.action_type caller (some r.lock_token) r.draft r.target
          r.react_kind w)
        ready
        λ ctx w2 ready2.
          Keyed-then key id w2 (evaluate env ctx w2) (with_result action)
            ((evaluate-Untouched env ctx w2).actions) ready2
            λ p w3.
              by_outcome-Keyed p.outcome (record action { decision_trace = to_steps p.trace }) p w3
                has

  started :
      (m : Result Action) (action : Action) (w : World)
      → m ≡ ok action
      → action.idempotency_key ≡ some key
      → Ready key action.action_id w.actions
      → Keyed key action.action_id (proceed with_action m w)
  started m action w e has ready = rw e (with_action-Keyed action w has ready)

  submit_new-Keyed :
      (w : World)
      → r.idempotency_key ≡ some key
      → keyed key w.actions ≡ none
      → find (drawn_id env w) w.actions ≡ none
      → Keyed key (drawn_id env w) (submit_new env caller account r w)
  unfolding submit_new new_action with_action with_context with_result
  submit_new-Keyed w has unkeyed new =
      started (new_action env caller account r w).0 _ (new_action env caller account r w).1 refl has
        (inr (unkeyed, new))

  replay-keyed :
      (again : WriteRequest) (w : World)
      → given again.idempotency_key ≡ some key
      → replay again w ≡ keyed key w.actions
  replay-keyed again w e = rw (replay, e) refl

  first_time :
      (w : World)
      → given r.idempotency_key ≡ some key
      → keyed key w.actions ≡ none
      → submit_write env caller account r w ≡ submit_new env caller account r w
  unfolding submit_write find_by_idempotency_key
  first_time w given_key unkeyed = ground arith

  first-Keyed :
      (w : World)
      → given r.idempotency_key ≡ some key
      → keyed key w.actions ≡ none
      → find (drawn_id env w) w.actions ≡ none
      → Keyed key (drawn_id env w) (submit_write env caller account r w)
  first-Keyed w given_key unkeyed new =
      rw (first_time w given_key unkeyed) (submit_new-Keyed w (ground arith) unkeyed new)

  -- Where a submission with an idempotency key returns an action, and the identifier that it drew was
  -- not in use, a submission with that key in any state that stores under the key what the first one
  -- left there, whoever makes it and whatever else it asks for, returns that action and changes nothing.
  pub submit_write-retries :
      (again : WriteRequest) (other : String) (another : Account) (w v : World) (a : Action)
      → given r.idempotency_key ≡ some key
      → again.idempotency_key ≡ r.idempotency_key
      → find (drawn_id env w) w.actions ≡ none
      → (submit_write env caller account r w).0 ≡ ok a
      → keyed key v.actions ≡ keyed key (submit_write env caller account r w).1.actions
      → submit_write env other another again v ≡ (ok a, v)
  submit_write-retries again other another w v a given_key same new returned left =
      let keep : given again.idempotency_key ≡ some key = ap given same ∙ given_key in
      let after = (submit_write env caller account r w).1 in
      submit_write-replays env other another again v a (
        replay-keyed again v keep ∙ left ∙ elim (Option-cases (keyed key w.actions)) [
          | inl unkeyed ↦ first-Keyed w given_key unkeyed new a returned
          | inr (b, stored) ↦
              let back =
                submit_write-replays env caller account r w b
                  (replay-keyed r w given_key ∙ stored) in
              let this : b ≡ a = ground arith in rw back (stored ∙ ap some this)
        ])
