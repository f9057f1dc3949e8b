-- ===== src/Actions/Gate.antt =====
-- actions/service.py: `_submit_write` calls an adapter only for a request that the guards allow.
use account_pool.Base.{
  String, ◌≡◌, refl, ◌⊎◌, inl, inr, some, arith, ap, sym, ◌∙◌, ◌+◌, Option-cases,
}
use account_pool.Domain.Enums.{DecisionOutcome}
use account_pool.Domain.Models.{Account, Action}
use account_pool.Runtime.Errors.{Result, ok, raised, Result-cases}
use account_pool.Runtime.World.{World, Env}
use account_pool.Runtime.Monad.{Prog, proceed, ◌>>=◌}
use account_pool.Db.Records.{find_by_idempotency_key}
use account_pool.Policy.Decisions.{PolicyResult, to_steps}
use account_pool.Policy.Policies.{resolve_policy}
use account_pool.Policy.Context.{GuardContext}
use account_pool.Policy.Engine.{evaluate}
use account_pool.Policy.Frame.{evaluate-Untouched}
use account_pool.Policy.Admission.{Admitted, evaluate-Admitted}
use account_pool.Actions.Context.{build_ctx}
use account_pool.Actions.Submit.{
  WriteRequest, by_outcome, replay, new_action, settle, submit_new, submit_write,
}
use account_pool.Actions.Outcomes.{refuse-calls, queue-calls}

-- The request as the guards see it.
pub record Describes (caller : String) (account : Account) (r : WriteRequest) (ctx : GuardContext)
    : Type 0 where
  pub account_same : ctx.account ≡ account
  pub caller_same : ctx.caller ≡ caller
  pub verb_same : ctx.action_type ≡ r.action_type
  pub token_same : ctx.lock_token ≡ some r.lock_token
  pub draft_same : ctx.draft ≡ r.draft
  pub target_same : ctx.target ≡ r.target
  pub kind_same : ctx.react_kind ≡ r.react_kind
  pub policy_same : resolve_policy account ≡ ok ctx.policy

-- The state in which the guards start: an identifier and two readings of the clock are spent.
abbrev pub at_guards : World → World
at_guards w = record w { ticks = w.ticks + 1 + 1; minted = w.minted + 1 }

module _ (env : Env) (caller : String) (account : Account) (r : WriteRequest) where
  -- Nothing was asked of an adapter, or the guards admitted the request.
  abbrev pub Gated : World → World → Type 0
  Gated w v =
      (v.calls ≡ w.calls)
      ⊎ ((ctx : GuardContext) × Describes caller account r ctx × Admitted env ctx (at_guards w))

  by_outcome-calls :
      (o : DecisionOutcome) (action : Action) (p : PolicyResult) (w : World)
      → ((by_outcome env caller account r action p o w).1.calls ≡ w.calls)
        ⊎ (o ≡ DecisionOutcome.allow)
  by_outcome-calls DecisionOutcome.deny action p w = inl (refuse-calls env caller action p w)
  by_outcome-calls DecisionOutcome.route_to_approval action p w =
      inl (queue-calls env caller action p w account r.draft)
  by_outcome-calls DecisionOutcome.allow action p w = inr refl

  with_result : Action → PolicyResult → Prog Action
  with_result action p =
      settle env caller account r (record action { decision_trace = to_steps p.trace }) p

  decide-Gated :
      (action : Action) (ctx : GuardContext) (w v : World) (m : Result PolicyResult)
      → Describes caller account r ctx
      → evaluate env ctx (at_guards w) ≡ (m, v)
      → v.calls ≡ w.calls
      → Gated w (proceed (with_result action) m v).1
  unfolding with_result settle
  decide-Gated action ctx w v (raised e) same run quiet = inl quiet
  decide-Gated action ctx w v (ok p) same run quiet =
      elim (by_outcome-calls p.outcome (record action { decision_trace = to_steps p.trace }) p v) [
        | inl none_made ↦ inl (none_made ∙ quiet)
        | inr allowed ↦ inr (ctx, same, evaluate-Admitted env ctx (at_guards w) v p run allowed)
      ]

  build : Prog GuardContext
  build =
      build_ctx env account r.action_type caller (some r.lock_token) r.draft r.target r.react_kind

  build-quiet : (w : World) → (build w).1 ≡ w
  unfolding build build_ctx
  build-quiet w = ground arith

  build-Describes :
      (w : World) (ctx : GuardContext) → (build w).0 ≡ ok ctx → Describes caller account r ctx
  unfolding build build_ctx
  build-Describes w ctx e = elim (Option-cases (env.registry account.platform)) [
    | inl missing ↦ absurd (ground arith)
    | inr (adapter, there) ↦ elim (Result-cases (resolve_policy account)) [
      | inl (x, wrong) ↦ absurd (ground arith)
      | inr (policy, right) ↦ ground arith
    ]
  ]

  with_context : Action → GuardContext → Prog Action
  with_context action ctx = evaluate env ctx >>= with_result action

  built-Gated :
      (action : Action) (w u : World) (m : Result GuardContext)
      → u ≡ at_guards w
      → ((ctx : GuardContext) → m ≡ ok ctx → Describes caller account r ctx)
      → Gated w (proceed (with_context action) m u).1
  unfolding with_context
  built-Gated action w u (raised e) same fits = inl (ap (λ v. v.calls) same)
  built-Gated action w u (ok ctx) same fits =
      let (m, v) = evaluate env ctx u in
      decide-Gated action ctx w v m (fits ctx refl) (ap (evaluate env ctx) (sym same))
        ((evaluate-Untouched env ctx u).calls ∙ ap (λ v. v.calls) same)

  with_action : Action → Prog Action
  with_action action = build >>= with_context action

  made-Gated : (w : World) (m : Result Action) → Gated w (proceed with_action m (at_guards w)).1
  unfolding with_action
  made-Gated w (raised e) = inl refl
  made-Gated w (ok action) =
      let (m, u) = build (at_guards w) in
      built-Gated action w u m (build-quiet (at_guards w)) (build-Describes (at_guards w))

  submit_new-Gated : (w : World) → Gated w (submit_new env caller account r w).1
  unfolding submit_new new_action build with_result with_context with_action
  submit_new-Gated w = made-Gated w (new_action env caller account r w).0

  -- `_submit_write` makes no call of an adapter, neither to publish, comment or react nor any other,
  -- unless the guards admitted the request as it was given: the account is active, the caller holds its
  -- lease, and so on through `Admitted`. This holds also where it raises.
  pub submit_write-Gated : (w : World) → Gated w (submit_write env caller account r w).1
  unfolding submit_write find_by_idempotency_key
  submit_write-Gated w = ground (arith, submit_new-Gated w)

  -- A request whose idempotency key is stored returns the first stored action with that key, and changes
  -- nothing at all.
  pub submit_write-replays :
      (w : World) (a : Action)
      → replay r w ≡ some a
      → submit_write env caller account r w ≡ (ok a, w)
  unfolding submit_write find_by_idempotency_key
  submit_write-replays w a e = ground arith
