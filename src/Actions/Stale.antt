-- ===== src/Actions/Stale.antt =====
-- actions/service.py: `decide_approval` turns a stale approval down.
use account_pool.Base.{
  ℕ, String, ◌≡◌, refl, ◌≢◌, inl, inr, Bool, true, false, Option, none, some, [], ◌∷◌, ◌++◌, arith,
  ap, sym, ◌∙◌, if◌then◌else◌, Option-cases,
}
use mathlib.Core.Path.{subst}
use account_pool.Table.{Table, find, put, find-put_self}
use account_pool.Domain.Enums.{ActionState, ReviewState, DecisionOutcome, DenialCode}
use account_pool.Domain.Models.{Account, Action, ApprovalItem, AuditEvent, ContentDraft, is_expired}
use account_pool.Runtime.Errors.{Result, ok, raised}
use account_pool.Runtime.World.{World, Env, ActionRow, ApprovalRow}
use account_pool.Runtime.Monad.{Prog, proceed, pure, ◌>>◌}
use account_pool.Db.Records.{
  action_row, upsert_action, upsert_approval, action_of, approval_of, get_draft, upsert_draft,
}
use account_pool.Db.Audit.{record_event, append_event}
use account_pool.Approvals.{set_state}
use account_pool.Actions.Context.{given, draft_if, require_draft}
use account_pool.Actions.Drafts.{DraftChanges, edit, update_draft}
use account_pool.Actions.Decide.{
  Decided, is_stale, record_review, turn_down, approve_current, approve_eligible, check_age,
  refusal, approve,
}

-- From `w` an approval and its action were turned down with a code: the caller is told, the approval
-- waits for changes, the action is refused, one event says so, and no adapter was called.
pub record TurnedDown (approval_id decided_by : String) (approval : ApprovalItem) (action : Action)
    (code : DenialCode) (w : World) (m : Result Decided × World) : Type 0 where
  pub told :
      (d : Decided) × (m.0 ≡ ok d)
      × (d.action_state ≡ some ActionState.refused)
      × (d.denial_code ≡ some code)
  pub sent_back :
      (a : ApprovalItem) × (approval_of m.1.approvals approval.approval_id ≡ some a)
      × (a.review_state ≡ ReviewState.changes_requested)
      × (a.decided_by ≡ some decided_by)
  pub refused :
      action_of m.1.actions action.action_id ≡ some (record action { state = ActionState.refused })
  pub logged :
      (e : AuditEvent) × (m.1.audit ≡ w.audit ++ e ∷ [])
      × (e.outcome ≡ DecisionOutcome.deny)
      × (e.denial_code ≡ some code)
      × (e.action_id ≡ some action.action_id)
  pub no_call : m.1.calls ≡ w.calls

approval_of-put :
    (t : Table ApprovalRow) (id : String) (row : ApprovalRow)
    → approval_of (put id row t) id ≡ some row.payload
approval_of-put t id row = ground (arith, find-put_self id row t)

action_of-put :
    (t : Table ActionRow) (id : String) (a : Action) (old : Option ActionRow)
    → action_of (put id (action_row a old) t) id ≡ some a
action_of-put t id a none = ground (arith, find-put_self id (action_row a none) t)
action_of-put t id a (some old) = ground (arith, find-put_self id (action_row a (some old)) t)

module _ (env : Env) (approval_id decided_by : String) (approval : ApprovalItem) (action : Action)
    (account : Account) where
  turned : Option String → DenialCode → Prog Decided
  turned reason code =
      turn_down env approval_id decided_by approval action account reason code
      >> pure (refusal env approval_id decided_by (some code))

  turned-TurnedDown :
      (reason : Option String) (code : DenialCode) (w : World)
      → TurnedDown approval_id decided_by approval action code w (turned reason code w)
  unfolding turned turn_down set_state record_review record_event append_event upsert_action
      upsert_approval
  turned-TurnedDown reason code w = record {
    told = (refusal env approval_id decided_by (some code), refl, refl, refl);
    sent_back = (_, approval_of-put w.approvals approval.approval_id _, refl, refl);
    refused =
        action_of-put w.actions action.action_id (record action { state = ActionState.refused })
          (find action.action_id w.actions);
    logged = (_, refl, refl, refl, refl);
    no_call = refl;
  }

  module _ (reason : Option String) (id : String) (d : ContentDraft) (r : ℕ)
      (drafted : given action.draft_id ≡ some id) (pin : approval.pinned_revision ≡ some r)
      (moved : d.revision ≢ r) where
    draft_if-found :
        (u : World) → find id u.drafts ≡ some d → draft_if action.draft_id u ≡ (ok (some d), u)
    unfolding draft_if require_draft get_draft
    draft_if-found u there = ground arith

    moved-stale : is_stale (some d) approval.pinned_revision ≡ true
    moved-stale = ground arith

    after_draft : Option ContentDraft → Prog Decided
    after_draft draft =
        if is_stale draft approval.pinned_revision
        then turned (some "draft changed after approval") DenialCode.approval_stale
        else approve_eligible env approval_id decided_by approval action account draft reason

    approve_current-turned :
        (u : World)
        → find id u.drafts ≡ some d
        → approve_current env approval_id decided_by approval action account reason u
          ≡ turned (some "draft changed after approval") DenialCode.approval_stale u
    unfolding approve_current turned after_draft
    approve_current-turned u there =
        ap (λ (m : Result (Option ContentDraft) × World). proceed after_draft m.0 m.1)
          (draft_if-found u there)
        ∙ ap
            (λ b.
              (if b
                  then turned (some "draft changed after approval") DenialCode.approval_stale
                  else approve_eligible env approval_id decided_by approval action account (some d)
                      reason)
                u)
            moved-stale

    TurnedDown-from :
        (w u : World) (m : Result Decided × World)
        → u.audit ≡ w.audit
        → u.calls ≡ w.calls
        → TurnedDown approval_id decided_by approval action DenialCode.approval_stale u m
        → TurnedDown approval_id decided_by approval action DenialCode.approval_stale w m
    TurnedDown-from w u m audit calls t =
        let (e, grown, a, b, c) = t.logged in
        record {
          told = t.told;
          sent_back = t.sent_back;
          refused = t.refused;
          logged = (e, grown ∙ ap (λ l. l ++ e ∷ []) audit, a, b, c);
          no_call = t.no_call ∙ calls;
        }

    by_age : Bool → Prog Decided
    by_age expired =
        if expired
        then turned (some "approval expired") DenialCode.approval_stale
        else approve_current env approval_id decided_by approval action account reason

    by_age-TurnedDown :
        (b : Bool) (u : World)
        → find id u.drafts ≡ some d
        → TurnedDown approval_id decided_by approval action DenialCode.approval_stale u (by_age b u)
    unfolding by_age
    by_age-TurnedDown true u there =
        turned-TurnedDown (some "approval expired") DenialCode.approval_stale u
    by_age-TurnedDown false u there =
        subst (TurnedDown approval_id decided_by approval action DenialCode.approval_stale u)
          (sym (approve_current-turned u there))
          (turned-TurnedDown (some "draft changed after approval") DenialCode.approval_stale u)

    aged :
        (w : World) (m : Result Bool × World) (b : Bool)
        → m.0 ≡ ok b
        → m.1.audit ≡ w.audit
        → m.1.calls ≡ w.calls
        → find id m.1.drafts ≡ some d
        → TurnedDown approval_id decided_by approval action DenialCode.approval_stale w
            (proceed by_age m.0 m.1)
    aged w (ok c, u) b e audit calls there =
        TurnedDown-from w u (by_age c u) audit calls (by_age-TurnedDown c u there)
    aged w (raised x, u) b e audit calls there = absurd (ground arith)

    -- An approval whose draft has moved on from the revision that was pinned is turned down as stale, also
    -- where it has expired as well, and whatever the state of its review.
    pub approve-stale :
        (w : World)
        → find id w.drafts ≡ some d
        → TurnedDown approval_id decided_by approval action DenialCode.approval_stale w
            (approve env approval_id decided_by approval action account reason w)
    unfolding approve by_age turned
    approve-stale w there = elim (Option-cases approval.expires_at) [
      | inl never ↦
          aged w (check_age env approval_id decided_by approval w) false (ground arith)
            (ground arith) (ground arith) (ground arith)
      | inr (t, limit) ↦
          aged w (check_age env approval_id decided_by approval w)
            (is_expired approval (env.time w.ticks)) (ground arith) (ground arith) (ground arith)
            (ground arith)
    ]

  -- An edit of a draft makes every approval that was pinned to it stale: right after `update_draft`, to approve
  -- such an approval turns it down with the code of a stale one and calls no adapter.
  pub update_draft-makes_stale :
      (changes : DraftChanges) (reason : Option String) (d : ContentDraft) (w : World)
      → find d.draft_id w.drafts ≡ some d
      → given action.draft_id ≡ some d.draft_id
      → approval.pinned_revision ≡ some d.revision
      → let u = (update_draft env d.draft_id changes w).1 in
        TurnedDown approval_id decided_by approval action DenialCode.approval_stale u
          (approve env approval_id decided_by approval action account reason u)
  unfolding update_draft require_draft get_draft edit upsert_draft
  update_draft-makes_stale changes reason d w there drafted pin =
      let new = edit changes (env.time w.ticks) d in
      let u = (update_draft env d.draft_id changes w).1 in
      approve-stale reason d.draft_id new d.revision drafted pin (λ e. absurd (omega (arith, e))) u
        (ground (arith, there, find-put_self d.draft_id new w.drafts))
