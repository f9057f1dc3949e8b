-- ===== src/Actions/Calls.antt =====
-- actions/service.py: what `_execute` asks of an adapter.
use account_pool.Base.{
  String, ◌≡◌, refl, ◌⊎◌, inl, inr, Bool, true, false, Option, List, [], ◌∷◌, ◌++◌, arith, ap, ◌∙◌,
  if◌then◌else◌,
}
use account_pool.Domain.Enums.{ActionType, ActionState, DenialCode, PublishMode}
use account_pool.Domain.Models.{
  Account, Action, ContentDraft, DecisionStep, TargetRef, ActionResult, PlatformPolicy,
}
use account_pool.Adapters.Interface.{AdapterSession, AdapterCall, Adapter}
use account_pool.Runtime.Errors.{Error, Result, ok, raised}
use account_pool.Runtime.World.{World, Env}
use account_pool.Runtime.Monad.{Prog, proceed, get_adapter, ◌>>=◌}
use account_pool.Db.Records.{upsert_action}
use account_pool.Db.Audit.{record_event, append_event}
use account_pool.Policy.Policies.{resolve_policy}
use account_pool.Actions.Context.{lift, load_session}
use account_pool.Actions.Execute.{
  attempt, publish_by, dispatch, record_execution, fail_with, fail_result, complete, succeed,
  finish, execute,
}
use account_pool.Actions.Outcomes.{load_session-quiet, update_trackers-calls}

-- A call of an adapter that an execution may make: a write, with the setting of the dry run, and to
-- publish only where the policy's mode is the API.
abbrev pub Permitted : Bool → PublishMode → AdapterCall → Type 0
Permitted dry mode (AdapterCall.publish s d flag) = (flag ≡ dry) × (mode ≡ PublishMode.api)
Permitted dry mode (AdapterCall.comment s t d flag) = flag ≡ dry
Permitted dry mode (AdapterCall.react s t k flag) = flag ≡ dry
Permitted dry mode _ = ⊥

-- From `w` to `v` at most one call was made, under the policy of the account.
abbrev pub AtMostOne : Env → Account → World → World → Type 0
AtMostOne env account w v =
    (v.calls ≡ w.calls)
    ⊎ ((c : AdapterCall) × (p : PlatformPolicy) × (v.calls ≡ w.calls ++ c ∷ [])
        × (resolve_policy account ≡ ok p)
        × Permitted env.dry_run p.publish_mode c)

module _ (env : Env) (account : Account) where
  publish_by-AtMostOne :
      (mode : PublishMode) (adapter : Adapter) (session : AdapterSession)
      (draft : Option ContentDraft) (policy : PlatformPolicy) (w : World)
      → policy.publish_mode ≡ mode
      → resolve_policy account ≡ ok policy
      → AtMostOne env account w (publish_by mode adapter session draft env.dry_run w).1
  unfolding publish_by
  publish_by-AtMostOne PublishMode.api adapter session draft policy w e same =
      inr (AdapterCall.publish session draft env.dry_run, policy, refl, same, (refl, e))
  publish_by-AtMostOne mode adapter session draft policy w e same = inl refl

  dispatch-AtMostOne :
      (adapter : Adapter) (session : AdapterSession) (verb : ActionType)
      (draft : Option ContentDraft) (target : Option TargetRef) (kind : Option String)
      (policy : PlatformPolicy) (w : World)
      → resolve_policy account ≡ ok policy
      → AtMostOne env account w
          (dispatch adapter session verb draft target kind policy env.dry_run w).1
  unfolding dispatch
  dispatch-AtMostOne adapter session ActionType.publish draft target kind policy w same =
      publish_by-AtMostOne policy.publish_mode adapter session draft policy w refl same
  dispatch-AtMostOne adapter session ActionType.comment draft target kind policy w same =
      inr (_, policy, refl, same, refl)
  dispatch-AtMostOne adapter session ActionType.react draft target kind policy w same =
      inr (_, policy, refl, same, refl)
  dispatch-AtMostOne adapter session _ draft target kind policy w same = inl refl

module _ (env : Env) (action : Action) (account : Account) (actor : String)
    (snapshot : Option (List DecisionStep)) (draft : Option ContentDraft)
    (target : Option TargetRef) where
  succeed-calls :
      (res : ActionResult) (w : World)
      → (succeed env action account actor snapshot draft target res w).1.calls ≡ w.calls
  unfolding succeed complete record_execution record_event append_event upsert_action
  succeed-calls res w =
      ground (arith, update_trackers-calls env action account actor snapshot draft target w)

  fail_result-calls :
      (res : ActionResult) (w : World)
      → (fail_result env action account actor snapshot res w).1.calls ≡ w.calls
  unfolding fail_result record_execution record_event append_event upsert_action
  fail_result-calls res w = refl

  fail_with-calls :
      (code : DenialCode) (w : World)
      → (fail_with env action account actor snapshot code w).1.calls ≡ w.calls
  unfolding fail_with record_execution record_event append_event upsert_action
  fail_with-calls code w = refl

  verdict-calls :
      (b : Bool) (res : ActionResult) (w : World)
      → ((if b
            then succeed env action account actor snapshot draft target res
            else fail_result env action account actor snapshot res)
          w).1.calls
        ≡ w.calls
  verdict-calls true res w = succeed-calls res w
  verdict-calls false res w = fail_result-calls res w

  finish-calls :
      (r : Result ActionResult) (w : World)
      → (finish env action account actor snapshot draft target r w).1.calls ≡ w.calls
  unfolding finish
  finish-calls (raised Error.unsupported_capability) w =
      fail_with-calls DenialCode.capability_unsupported w
  finish-calls (raised Error.adapter_content_invalid) w =
      fail_with-calls DenialCode.content_invalid w
  finish-calls (raised e) w = refl
  finish-calls (ok res) w = verdict-calls res.ok res w

AtMostOne-then :
    {A B : Type 0} (env : Env) (account : Account) (w : World) (m : Result A × World)
    (f : A → Prog B)
    → m.1.calls ≡ w.calls
    → ((a : A) → m.0 ≡ ok a → AtMostOne env account m.1 (f a m.1).1)
    → AtMostOne env account w (proceed f m.0 m.1).1
AtMostOne-then env account w (raised e, u) f quiet rest = inl quiet
AtMostOne-then env account w (ok a, u) f quiet rest = moved (rest a refl)
  where
    moved : AtMostOne env account u (f a u).1 → AtMostOne env account w (f a u).1
    moved (inl same) = inl (same ∙ quiet)
    moved (inr (c, p, grown, policy, permitted)) =
        inr (c, p, grown ∙ ap (λ l. l ++ c ∷ []) quiet, policy, permitted)

AtMostOne-before :
    {A B : Type 0} (env : Env) (account : Account) (w : World) (m : Result A × World)
    (f : A → Prog B)
    → AtMostOne env account w m.1
    → ((a : A) (u : World) → (f a u).1.calls ≡ u.calls)
    → AtMostOne env account w (proceed f m.0 m.1).1
AtMostOne-before env account w (raised e, u) f first quiet = first
AtMostOne-before env account w (ok a, u) f (inl same) quiet = inl (quiet a u ∙ same)
AtMostOne-before env account w (ok a, u) f (inr (c, p, grown, policy, permitted)) quiet =
    inr (c, p, quiet a u ∙ grown, policy, permitted)

module _ (env : Env) where
  get_adapter-calls : (a : Account) (w : World) → (get_adapter env a.platform w).1.calls ≡ w.calls
  get_adapter-calls a w = ground arith

  -- An execution makes at most one call of an adapter, whether it returns or raises. It is a call to
  -- publish, comment or react that carries the setting of the dry run, and it publishes only where the
  -- policy of the account has the API as its mode: content for a platform without one is only staged.
  pub execute-AtMostOne :
      (action : Action) (account : Account) (draft : Option ContentDraft)
      (target : Option TargetRef) (kind : Option String) (actor : String)
      (snapshot : Option (List DecisionStep)) (w : World)
      → AtMostOne env account w (execute env action account draft target kind actor snapshot w).1
  unfolding execute upsert_action
  execute-AtMostOne action account draft target kind actor snapshot w =
      let (m1, w1) = upsert_action executing w in
      AtMostOne-then env account w1 (get_adapter env account.platform w1) with_adapter
        (get_adapter-calls account w1)
        λ adapter _.
          let w2 = (get_adapter env account.platform w1).1 in
          AtMostOne-then env account w2 (load_session env account w2) (with_session adapter)
            (ap (λ u. u.calls) (load_session-quiet env w2 account))
            λ session _.
              let w3 = (load_session env account w2).1 in
              AtMostOne-then env account w3 (lift (resolve_policy account) w3)
                (with_policy adapter session) refl
                λ policy same.
                  AtMostOne-before env account w3
                    (attempt
                      (dispatch adapter session action.type draft target kind policy env.dry_run)
                      w3)
                    conclude
                    (dispatch-AtMostOne env account adapter session action.type draft target kind
                      policy w3 same)
                    (finish-calls env executing account actor snapshot draft target)
    where
      executing : Action
      executing = record action { state = ActionState.executing }

      conclude : Result ActionResult → Prog Action
      conclude = finish env executing account actor snapshot draft target

      with_policy : Adapter → AdapterSession → PlatformPolicy → Prog Action
      with_policy adapter session policy =
          attempt (dispatch adapter session action.type draft target kind policy env.dry_run)
          >>= conclude

      with_session : Adapter → AdapterSession → Prog Action
      with_session adapter session = lift (resolve_policy account) >>= with_policy adapter session

      with_adapter : Adapter → Prog Action
      with_adapter adapter = load_session env account >>= with_session adapter
