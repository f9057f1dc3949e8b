-- ===== src/Actions/Review.antt =====
-- actions/service.py: `decide_approval` calls an adapter only after all its checks.
use account_pool.Base.{
  ℕ, ◌≤◌, String, ◌≡◌, refl, ◌⊎◌, inl, inr, Bool, true, false, not, ◌||◌, Option, none, some, arith,
  ap, ◌∙◌, if◌then◌else◌, str_eq, eq_iff, Option-cases, Bool-cases,
}
use mathlib.Core.Path.{subst}
use account_pool.Domain.Enums.{ConsentScope, DenialCode, action_consent}
use account_pool.Domain.Models.{Account, Action, ApprovalItem, ContentDraft, is_active, permits}
use account_pool.Runtime.Errors.{Error, Result, ok, raised}
use account_pool.Runtime.World.{World, Env}
use account_pool.Runtime.Monad.{Prog, proceed, pure, raise, ◌>>◌}
use account_pool.Table.{find}
use account_pool.Db.Accounts.{account_of, get_account}
use account_pool.Db.Records.{
  upsert_action, upsert_approval, action_of, approval_of, get_action, get_approval, get_draft,
}
use account_pool.Db.Audit.{record_event, append_event}
use account_pool.Locking.{require_account}
use account_pool.Approvals.{set_state}
use account_pool.Actions.Context.{given, draft_if, require_draft}
use account_pool.Actions.Decide.{
  Decided, is_stale, record_review, load_review, turn_down, request_changes, reject,
  approve_eligible, approve_current, check_age, refusal, reject_reason, approve, decide_approval,
}

-- No call was made from `w` to `v`, or something holds.
abbrev pub CallsOr : Type 0 → World → World → Type 0
CallsOr P w v = (v.calls ≡ w.calls) ⊎ P

module _ {P : Type 0} where
  CallsOr-then :
      {A B : Type 0} (w : World) (m : Result A × World) (f : A → Prog B)
      → m.1.calls ≡ w.calls
      → ((a : A) → m.0 ≡ ok a → CallsOr P m.1 (f a m.1).1)
      → CallsOr P w (proceed f m.0 m.1).1
  CallsOr-then w (raised e, u) f quiet rest = inl quiet
  CallsOr-then w (ok a, u) f quiet rest = elim (rest a refl) [
    | inl same ↦ inl (same ∙ quiet)
    | inr p ↦ inr p
  ]

  CallsOr-if :
      {A : Type 0} (w : World) (b : Bool) (m n : Prog A)
      → (m w).1.calls ≡ w.calls
      → (b ≡ false → CallsOr P w (n w).1)
      → CallsOr P w ((if b then m else n) w).1
  CallsOr-if w true m n quiet rest = inl quiet
  CallsOr-if w false m n quiet rest = rest refl

-- The account may act, as far as an approval looks again.
pub record Eligible (action : Action) (account : Account) : Type 0 where
  pub active : is_active account ≡ true
  pub consented :
      (s : ConsentScope) × (action_consent action.type ≡ some s)
      × (permits account.authorization s ≡ true)

-- The draft of an action, if it has one, is there, and at the revision that was pinned, if one was.
abbrev pub IsPinned : ApprovalItem → Action → World → Type 0
IsPinned approval action w =
    (id : String)
    → given action.draft_id ≡ some id
    → (d : ContentDraft) × (find id w.drafts ≡ some d)
      × ((r : ℕ) → approval.pinned_revision ≡ some r → d.revision ≡ r)

-- The checks of an approval, in the state that it starts from.
pub record Rechecked (env : Env) (approval : ApprovalItem) (action : Action) (account : Account)
    (w : World) : Type 0 where
  pub in_time : (t : ℕ) → approval.expires_at ≡ some t → env.time w.ticks ≤ t
  pub pinned : IsPinned approval action w
  pub eligible : Eligible action account

-- A decision that may act: it is to approve, its approval, action and account are stored, and the
-- checks hold.
pub record Cleared (env : Env) (approval_id decision : String) (w : World) : Type 0 where
  pub approval : ApprovalItem
  pub action : Action
  pub account : Account
  pub decided : decision ≡ "approve"
  pub queued : approval_of w.approvals approval_id ≡ some approval
  pub stored : action_of w.actions approval.action_id ≡ some action
  pub owner : account_of w.accounts action.account_id ≡ some account
  pub rechecked : Rechecked env approval action account w

CallsOr-map : {P Q : Type 0} (w v : World) → (P → Q) → CallsOr P w v → CallsOr Q w v
CallsOr-map w v f (inl same) = inl same
CallsOr-map w v f (inr p) = inr (f p)

module _ (env : Env) (approval_id decided_by : String) where
  module _ (approval : ApprovalItem) (action : Action) (account : Account) where
    pub turn_down-calls :
        (reason : Option String) (code : DenialCode) (shown : Option DenialCode) (w : World)
        → ((turn_down env approval_id decided_by approval action account reason code
              >> pure (refusal env approval_id decided_by shown))
            w).1.calls
          ≡ w.calls
    unfolding turn_down set_state record_review record_event append_event upsert_action
        upsert_approval
    turn_down-calls reason code shown w = refl

    pub request_changes-calls :
        (reason : Option String) (w : World)
        → (request_changes env approval_id decided_by approval reason w).1.calls ≡ w.calls
    unfolding request_changes set_state upsert_approval
    request_changes-calls reason w = refl

    pub check_age-quiet :
        (w : World)
        → ((check_age env approval_id decided_by approval w).1.calls ≡ w.calls)
          × ((check_age env approval_id decided_by approval w).1.drafts ≡ w.drafts)
    check_age-quiet w = ground arith

    check_age-in_time :
        (w : World)
        → (check_age env approval_id decided_by approval w).0 ≡ ok false
        → (t : ℕ) → approval.expires_at ≡ some t
        → env.time w.ticks ≤ t
    check_age-in_time w e t there = ground arith

    pub draft_if-quiet : (id : Option String) (w : World) → (draft_if id w).1 ≡ w
    unfolding draft_if require_draft get_draft
    draft_if-quiet id w = ground arith

    draft_if-IsPinned :
        (w : World) (draft : Option ContentDraft)
        → (draft_if action.draft_id w).0 ≡ ok draft
        → is_stale draft approval.pinned_revision ≡ false
        → IsPinned approval action w
    unfolding draft_if require_draft get_draft
    draft_if-IsPinned w draft e fresh id there = elim (Option-cases (find id w.drafts)) [
      | inl missing ↦ absurd (ground arith)
      | inr (d, found) ↦ (d, found, λ r pin. ground arith)
    ]

    approve_eligible-CallsOr :
        (draft : Option ContentDraft) (reason : Option String) (w : World)
        → CallsOr
            (Eligible action account)
            w
            (approve_eligible env approval_id decided_by approval action account draft reason w).1
    unfolding approve_eligible
    approve_eligible-CallsOr draft reason w = elim (Option-cases (action_consent action.type)) [
      | inl unknown ↦ inl (ground arith)
      | inr (s, known) ↦
          elim (Bool-cases (not (is_active account) || not (permits account.authorization s))) [
            | inl bad ↦ inl (
                ground (
                  arith,
                  turn_down-calls (some "account no longer eligible") DenialCode.not_authorized
                      (some DenialCode.not_authorized) w,
                ))
            | inr good ↦
                inr (record { active = ground arith; consented = (s, known, ground arith) })
          ]
    ]

    with_draft : Option String → Option ContentDraft → Prog Decided
    with_draft reason draft =
        if is_stale draft approval.pinned_revision
        then turn_down env approval_id decided_by approval action account
            (some "draft changed after approval") DenialCode.approval_stale
          >> pure (refusal env approval_id decided_by (some DenialCode.approval_stale))
        else approve_eligible env approval_id decided_by approval action account draft reason

    approve_current-CallsOr :
        (reason : Option String) (w : World)
        → CallsOr
            (IsPinned approval action w × Eligible action account)
            w
            (approve_current env approval_id decided_by approval action account reason w).1
    unfolding approve_current with_draft
    approve_current-CallsOr reason w =
        CallsOr-then w (draft_if action.draft_id w) (with_draft reason)
          (ap (λ u. u.calls) (draft_if-quiet action.draft_id w))
          λ draft got.
            CallsOr-if (draft_if action.draft_id w).1 (is_stale draft approval.pinned_revision) _ _
              (turn_down-calls (some "draft changed after approval") DenialCode.approval_stale
                (some DenialCode.approval_stale) (draft_if action.draft_id w).1)
              λ fresh.
                CallsOr-map (draft_if action.draft_id w).1
                  (approve_eligible env approval_id decided_by approval action account draft reason
                    (draft_if action.draft_id w).1).1
                  (λ e. (draft_if-IsPinned w draft got fresh, e))
                  (approve_eligible-CallsOr draft reason (draft_if action.draft_id w).1)

    with_age : Option String → Bool → Prog Decided
    with_age reason expired =
        if expired
        then turn_down env approval_id decided_by approval action account (some "approval expired")
            DenialCode.approval_stale
          >> pure (refusal env approval_id decided_by (some DenialCode.approval_stale))
        else approve_current env approval_id decided_by approval action account reason

    approve-CallsOr :
        (reason : Option String) (w : World)
        → CallsOr
            (Rechecked env approval action account w)
            w
            (approve env approval_id decided_by approval action account reason w).1
    unfolding approve with_age
    approve-CallsOr reason w =
        let (calls, drafts) = check_age-quiet w in
        let u = (check_age env approval_id decided_by approval w).1 in
        CallsOr-then w (check_age env approval_id decided_by approval w) (with_age reason) calls
          λ expired got.
            CallsOr-if u expired _ _
              (turn_down-calls (some "approval expired") DenialCode.approval_stale
                (some DenialCode.approval_stale) u)
              λ fresh.
                CallsOr-map u
                  (approve_current env approval_id decided_by approval action account reason u).1
                  (λ e. record {
                    in_time = check_age-in_time w (got ∙ ap ok fresh);
                    pinned = λ id there. rw drafts at (e.0 id there);
                    eligible = e.1;
                  })
                  (approve_current-CallsOr reason u)

module _ (env : Env) (approval_id decision decided_by : String) (reason : Option String) where
  pub load_review-quiet : (w : World) → (load_review env approval_id w).1 ≡ w
  unfolding load_review get_approval get_action require_account get_account
  load_review-quiet w = ground arith

  load_review-found :
      (w : World) (approval : ApprovalItem) (action : Action) (account : Account)
      → (load_review env approval_id w).0 ≡ ok (approval, action, account)
      → (approval_of w.approvals approval_id ≡ some approval)
        × (action_of w.actions approval.action_id ≡ some action)
        × (account_of w.accounts action.account_id ≡ some account)
  unfolding load_review get_approval get_action require_account get_account
  load_review-found w approval action account e =
      elim (Option-cases (approval_of w.approvals approval_id)) [
        | inl missing ↦ absurd (ground arith)
        | inr (a, queued) ↦ elim (Option-cases (action_of w.actions a.action_id)) [
          | inl missing ↦ absurd (ground arith)
          | inr (b, stored) ↦ elim (Option-cases (account_of w.accounts b.account_id)) [
            | inl missing ↦ absurd (ground arith)
            | inr (c, owner) ↦ ground arith
          ]
        ]
      ]

  answer : ApprovalItem → Action → Account → Prog Decided
  answer approval action account =
      if str_eq decision "request_changes"
      then request_changes env approval_id decided_by approval reason
      else if str_eq decision "reject"
      then reject env approval_id decided_by approval action account reason
      else if str_eq decision "approve"
      then approve env approval_id decided_by approval action account reason
      else raise Error.invalid_state

  answer-CallsOr :
      (approval : ApprovalItem) (action : Action) (account : Account) (w : World)
      → CallsOr
          ((decision ≡ "approve") × Rechecked env approval action account w)
          w
          (answer approval action account w).1
  unfolding answer request_changes reject
  answer-CallsOr approval action account w =
      CallsOr-if w (str_eq decision "request_changes") _ _
        (request_changes-calls env approval_id decided_by approval action account reason w)
        λ _.
          CallsOr-if w (str_eq decision "reject") _ _
            (turn_down-calls env approval_id decided_by approval action account
              (reject_reason env approval_id decided_by reason) DenialCode.approval_required none w)
            λ _. elim (Bool-cases (str_eq decision "approve")) [
              | inl same ↦ rw same (
                  CallsOr-map w
                    (approve env approval_id decided_by approval action account reason w).1
                    (λ e. ((eq_iff decision "approve").0 same, e))
                    (approve-CallsOr env approval_id decided_by approval action account reason w))
              | inr other ↦ rw other (inl refl)
            ]

  -- `decide_approval` makes no call of an adapter, whether it returns or raises, unless the decision is to
  -- approve, the approval, its action and its account are stored, the approval has not expired, the draft of
  -- the action, if it has one, is stored and at the revision that was pinned, if one was, and the account
  -- is active and consents to the verb.
  pub decide_approval-Cleared :
      (w : World)
      → CallsOr
          (Cleared env approval_id decision w)
          w
          (decide_approval env approval_id decision decided_by reason w).1
  unfolding decide_approval answer
  decide_approval-Cleared w =
      let (loaded, u) = load_review env approval_id w in
      CallsOr-then w (loaded, u) (λ (a, b, c). answer a b c)
        (ap (λ v. v.calls) (load_review-quiet w))
        λ (a, b, c) got.
          let (queued, stored, owner) = load_review-found w a b c got in
          CallsOr-map u (answer a b c u).1
            (λ e. record {
              approval = a;
              action = b;
              account = c;
              decided = e.0;
              queued = queued;
              stored = stored;
              owner = owner;
              rechecked = subst (λ v. Rechecked env a b c v) (load_review-quiet w) e.1;
            })
            (answer-CallsOr a b c u)
