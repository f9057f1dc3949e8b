-- ===== src/Actions/SilentReview.antt =====
-- actions/service.py: `decide_approval` in a dry run.
use account_pool.Base.{
  String, ◌≡◌, refl, inl, inr, true, not, ◌||◌, Option, none, some, List, arith, ap, if◌then◌else◌,
  str_eq, Option-cases,
}
use account_pool.Domain.Enums.{DenialCode, ReviewState, action_consent}
use account_pool.Domain.Models.{is_active, permits, Account, Action, ApprovalItem, ContentDraft}
use account_pool.Runtime.Errors.{Error}
use account_pool.Runtime.World.{World, Env}
use account_pool.Runtime.Monad.{pure, raise, ◌>>◌, Prog}
use account_pool.Adapters.Net.{Network}
use account_pool.Adapters.DryRun.{requests}
use account_pool.Actions.Execute.{execute}
use account_pool.Actions.Calls.{execute-AtMostOne}
use account_pool.Db.Records.{upsert_approval}
use account_pool.Approvals.{set_state}
use account_pool.Actions.Context.{draft_if}
use account_pool.Actions.Decide.{
  Decided, is_stale, load_review, turn_down, request_changes, reject, approve_and_execute, refusal,
  reject_reason, approve_eligible, approve_current, check_age, approve, decide_approval,
}
use account_pool.Actions.Review.{
  turn_down-calls, request_changes-calls, check_age-quiet, draft_if-quiet, load_review-quiet,
}
use account_pool.Actions.Silence.{
  Silent, of_calls, Silent-then, Silent-if, quiet-then, AtMostOne-Silent,
}

module _ (net : Network) (names : List String) where
  module _ (env : Env) (dry : env.dry_run ≡ true) where
    module _ (id by : String) (approval : ApprovalItem) (action : Action) (account : Account) where
      report : Action → Prog Decided
      report executed = pure (record {
        approval_id = id;
        review_state = some ReviewState.approved;
        action_id = some executed.action_id;
        action_state = some executed.state;
        denial_code = none;
        result = executed.result;
      })

      approve_and_execute-Silent :
          (draft : Option ContentDraft) (reason : Option String) (w : World)
          → Silent net names w
              (approve_and_execute env id by approval action account draft reason w).1
      unfolding approve_and_execute set_state upsert_approval report
      approve_and_execute-Silent draft reason w =
          let u = (set_state env approval ReviewState.approved by reason w).1 in
          let run = execute env action account draft action.target action.react_kind by none in
          Silent-then net names u (run u) report
            (AtMostOne-Silent net names env dry account u (run u).1 (
              execute-AtMostOne env action account draft action.target action.react_kind by none u))
            λ a _. refl

      turned_down : Option String → DenialCode → Option DenialCode → Prog Decided
      turned_down reason code shown =
          turn_down env id by approval action account reason code >> pure (refusal env id by shown)

      turned_down-Silent :
          (reason : Option String) (code : DenialCode) (shown : Option DenialCode) (w : World)
          → Silent net names w (turned_down reason code shown w).1
      unfolding turned_down
      turned_down-Silent reason code shown w =
          of_calls net names w (turned_down reason code shown w).1
            (turn_down-calls env id by approval action account reason code shown w)

      approve_eligible-Silent :
          (draft : Option ContentDraft) (reason : Option String) (w : World)
          → Silent net names w (approve_eligible env id by approval action account draft reason w).1
      unfolding approve_eligible turned_down
      approve_eligible-Silent draft reason w = elim (Option-cases (action_consent action.type)) [
        | inl unknown ↦ ap (requests net names) (ground arith)
        | inr (s, known) ↦ rw known (
            Silent-if net names w (not (is_active account) || not (permits account.authorization s))
              (turned_down (some "account no longer eligible") DenialCode.not_authorized
                (some DenialCode.not_authorized))
              (approve_and_execute env id by approval action account draft reason)
              (turned_down-Silent (some "account no longer eligible") DenialCode.not_authorized
                (some DenialCode.not_authorized) w)
              (approve_and_execute-Silent draft reason w))
      ]

      approve_current-Silent :
          (reason : Option String) (w : World)
          → Silent net names w (approve_current env id by approval action account reason w).1
      unfolding approve_current turned_down
      approve_current-Silent reason w =
          quiet-then net names w (draft_if action.draft_id w)
            (λ draft.
              if is_stale draft approval.pinned_revision
              then turned_down (some "draft changed after approval") DenialCode.approval_stale
                  (some DenialCode.approval_stale)
              else approve_eligible env id by approval action account draft reason)
            (draft_if-quiet env id by approval action account action.draft_id w)
            λ draft u.
              Silent-if net names u (is_stale draft approval.pinned_revision)
                (turned_down (some "draft changed after approval") DenialCode.approval_stale
                  (some DenialCode.approval_stale))
                (approve_eligible env id by approval action account draft reason)
                (turned_down-Silent (some "draft changed after approval") DenialCode.approval_stale
                  (some DenialCode.approval_stale) u)
                (approve_eligible-Silent draft reason u)

      approve-Silent :
          (reason : Option String) (w : World)
          → Silent net names w (approve env id by approval action account reason w).1
      unfolding approve turned_down
      approve-Silent reason w =
          Silent-then net names w (check_age env id by approval w)
            (λ expired.
              if expired
              then turned_down (some "approval expired") DenialCode.approval_stale
                  (some DenialCode.approval_stale)
              else approve_current env id by approval action account reason)
            (of_calls net names w (check_age env id by approval w).1
              (check_age-quiet env id by approval action account w).0)
            λ expired _.
              let u = (check_age env id by approval w).1 in
              Silent-if net names u expired
                (turned_down (some "approval expired") DenialCode.approval_stale
                  (some DenialCode.approval_stale))
                (approve_current env id by approval action account reason)
                (turned_down-Silent (some "approval expired") DenialCode.approval_stale
                  (some DenialCode.approval_stale) u)
                (approve_current-Silent reason u)

      answer : String → Option String → Prog Decided
      answer decision reason =
          if str_eq decision "request_changes"
          then request_changes env id by approval reason
          else if str_eq decision "reject"
          then reject env id by approval action account reason
          else if str_eq decision "approve"
          then approve env id by approval action account reason
          else raise Error.invalid_state

      answer-Silent :
          (decision : String) (reason : Option String) (w : World)
          → Silent net names w (answer decision reason w).1
      unfolding answer reject turned_down
      answer-Silent decision reason w =
          Silent-if net names w (str_eq decision "request_changes")
            (request_changes env id by approval reason)
            (if str_eq decision "reject"
              then reject env id by approval action account reason
              else if str_eq decision "approve"
              then approve env id by approval action account reason
              else raise Error.invalid_state)
            (of_calls net names w (request_changes env id by approval reason w).1
              (request_changes-calls env id by approval action account reason w))
            (Silent-if net names w (str_eq decision "reject")
              (reject env id by approval action account reason)
              (if str_eq decision "approve"
                then approve env id by approval action account reason
                else raise Error.invalid_state)
              (turned_down-Silent (reject_reason env id by reason) DenialCode.approval_required none
                w)
              (Silent-if net names w (str_eq decision "approve")
                (approve env id by approval action account reason) (raise Error.invalid_state)
                (approve-Silent reason w) refl))

    pub decide_approval-Silent :
        (id decision by : String) (reason : Option String) (w : World)
        → Silent net names w (decide_approval env id decision by reason w).1
    unfolding decide_approval answer
    decide_approval-Silent id decision by reason w =
        quiet-then net names w (load_review env id w)
          (λ (a, b, c). answer id by a b c decision reason)
          (load_review-quiet env id decision by reason w)
          λ (a, b, c) u. answer-Silent id by a b c decision reason u
