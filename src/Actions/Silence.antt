-- ===== src/Actions/Silence.antt =====
-- actions/service.py with the adapters of the network: a write asks nothing of a platform in a dry run.
use account_pool.Base.{
  String, ◌≡◌, refl, inl, inr, Bool, true, false, some, List, arith, ap, ◌∙◌, if◌then◌else◌,
}
use account_pool.Domain.Enums.{DecisionOutcome, PublishMode}
use account_pool.Domain.Models.{Account, Action}
use account_pool.Runtime.Errors.{Result, ok, raised}
use account_pool.Runtime.World.{World, Env}
use account_pool.Runtime.Monad.{Prog, proceed, ◌>>=◌}
use account_pool.Adapters.Interface.{AdapterCall}
use account_pool.Adapters.Net.{Network}
use account_pool.Adapters.DryRun.{is_quiet, requests, requests-quiet}
use account_pool.Policy.Decisions.{PolicyResult, to_steps, trace_snapshot}
use account_pool.Policy.Context.{GuardContext}
use account_pool.Policy.Engine.{evaluate}
use account_pool.Policy.Frame.{evaluate-Untouched}
use account_pool.Actions.Context.{build_ctx}
use account_pool.Actions.Calls.{Permitted, AtMostOne, execute-AtMostOne}
use account_pool.Actions.Outcomes.{refuse-calls, queue-calls}
use account_pool.Db.Records.{find_by_idempotency_key}
use account_pool.Actions.Submit.{
  WriteRequest, by_outcome, new_action, settle, submit_new, submit_write,
}

Permitted-quiet :
    (dry : Bool) (mode : PublishMode) (c : AdapterCall)
    → dry ≡ true
    → Permitted dry mode c
    → is_quiet c ≡ true
Permitted-quiet dry mode (AdapterCall.publish s d flag) e h = h.0 ∙ e
Permitted-quiet dry mode (AdapterCall.comment s t d flag) e h = h ∙ e
Permitted-quiet dry mode (AdapterCall.react s t k flag) e h = h ∙ e
Permitted-quiet dry mode (AdapterCall.authenticate s) e h = absurd h
Permitted-quiet dry mode (AdapterCall.refresh_credentials s) e h = absurd h
Permitted-quiet dry mode (AdapterCall.health_check s) e h = absurd h
Permitted-quiet dry mode (AdapterCall.ensure_self_identification s) e h = absurd h
Permitted-quiet dry mode (AdapterCall.read s t) e h = absurd h
Permitted-quiet dry mode (AdapterCall.search s q n) e h = absurd h
Permitted-quiet dry mode (AdapterCall.resolve_target s raw) e h = absurd h

module _ (net : Network) (names : List String) where
  -- No platform has seen a request from `w` to `v`.
  abbrev pub Silent : World → World → Type 0
  Silent w v = requests net names v.calls ≡ requests net names w.calls

  pub of_calls : (w v : World) → v.calls ≡ w.calls → Silent w v
  of_calls w v e = ap (requests net names) e

  pub Silent-then :
      {A B : Type 0} (w : World) (m : Result A × World) (f : A → Prog B)
      → Silent w m.1
      → ((a : A) → m.0 ≡ ok a → Silent m.1 (f a m.1).1)
      → Silent w (proceed f m.0 m.1).1
  Silent-then w (raised e, u) f first rest = first
  Silent-then w (ok a, u) f first rest = rest a refl ∙ first

  pub Silent-if :
      {A : Type 0} (w : World) (b : Bool) (m n : Prog A)
      → Silent w (m w).1
      → Silent w (n w).1
      → Silent w ((if b then m else n) w).1
  Silent-if w true m n first second = first
  Silent-if w false m n first second = second

  pub quiet-then :
      {A B : Type 0} (w : World) (m : Result A × World) (f : A → Prog B)
      → m.1 ≡ w
      → ((a : A) (u : World) → Silent u (f a u).1)
      → Silent w (proceed f m.0 m.1).1
  quiet-then w m f same rest =
      Silent-then w m f (ap (λ u. requests net names u.calls) same) λ a _. rest a m.1

  module _ (env : Env) (dry : env.dry_run ≡ true) where
    pub AtMostOne-Silent :
        (account : Account) (w v : World) → AtMostOne env account w v → Silent w v
    AtMostOne-Silent account w v (inl same) = of_calls w v same
    AtMostOne-Silent account w v (inr (c, p, grown, policy, permitted)) =
        ap (requests net names) grown
        ∙ requests-quiet net names w.calls c
            (Permitted-quiet env.dry_run p.publish_mode c dry permitted)

    module _ (caller : String) (account : Account) (r : WriteRequest) where
      by_outcome-Silent :
          (o : DecisionOutcome) (action : Action) (p : PolicyResult) (w : World)
          → Silent w (by_outcome env caller account r action p o w).1
      by_outcome-Silent DecisionOutcome.deny action p w =
          of_calls w (by_outcome env caller account r action p DecisionOutcome.deny w).1
            (refuse-calls env caller action p w)
      by_outcome-Silent DecisionOutcome.route_to_approval action p w =
          of_calls w
            (by_outcome env caller account r action p DecisionOutcome.route_to_approval w).1
            (queue-calls env caller action p w account r.draft)
      by_outcome-Silent DecisionOutcome.allow action p w =
          AtMostOne-Silent account w
            (by_outcome env caller account r action p DecisionOutcome.allow w).1
            (execute-AtMostOne env action account r.draft r.target r.react_kind caller
              (some (trace_snapshot p.trace)) w)

      with_result : Action → PolicyResult → Prog Action
      with_result action p =
          settle env caller account r (record action { decision_trace = to_steps p.trace }) p

      with_context : Action → GuardContext → Prog Action
      with_context action ctx = evaluate env ctx >>= with_result action

      build : Prog GuardContext
      build =
          build_ctx env account r.action_type caller (some r.lock_token) r.draft r.target
            r.react_kind

      build-calls : (w : World) → (build w).1.calls ≡ w.calls
      unfolding build build_ctx
      build-calls w = ground arith

      with_action : Action → Prog Action
      with_action action = build >>= with_context action

      with_context-Silent :
          (action : Action) (ctx : GuardContext) (w : World)
          → Silent w (with_context action ctx w).1
      unfolding with_context with_result settle
      with_context-Silent action ctx w =
          Silent-then w (evaluate env ctx w) (with_result action)
            (of_calls w (evaluate env ctx w).1 (evaluate-Untouched env ctx w).calls)
            λ p _.
              by_outcome-Silent p.outcome (record action { decision_trace = to_steps p.trace }) p
                (evaluate env ctx w).1

      with_action-Silent : (action : Action) (w : World) → Silent w (with_action action w).1
      unfolding with_action
      with_action-Silent action w =
          Silent-then w (build w) (with_context action) (of_calls w (build w).1 (build-calls w))
            λ ctx _. with_context-Silent action ctx (build w).1

      submit_new-Silent : (w : World) → Silent w (submit_new env caller account r w).1
      unfolding submit_new new_action build with_result with_context with_action
      submit_new-Silent w =
          Silent-then w (new_action env caller account r w) with_action refl
            λ action _. with_action-Silent action (new_action env caller account r w).1

      pub submit_write-Silent : (w : World) → Silent w (submit_write env caller account r w).1
      unfolding submit_write find_by_idempotency_key
      submit_write-Silent w = ground (arith, submit_new-Silent w)
