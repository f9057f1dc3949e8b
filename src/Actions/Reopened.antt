-- ===== src/Actions/Reopened.antt =====
-- actions/service.py: `decide_approval` on an approval that was decided before.
use account_pool.Base.{String, ◌≡◌, refl, Option}
use account_pool.Domain.Enums.{ReviewState}
use account_pool.Domain.Models.{Account, Action, ApprovalItem}
use account_pool.Runtime.World.{World, Env}
use account_pool.Approvals.{set_state}
use account_pool.Actions.Decide.{
  request_changes, reject, turn_down, approve, approve_current, approve_eligible,
  approve_and_execute,
}

abbrev pub in_state : ApprovalItem → ReviewState → ApprovalItem
in_state approval s = record approval { review_state = s }

-- None of the three decisions depends on the state of the review: an approval that was rejected or
-- approved already is decided like an open one, with the same result and the same effects.
pub decisions_ignore_state :
    (env : Env) (id by : String) (approval : ApprovalItem) (s : ReviewState) (action : Action)
    (account : Account) (reason : Option String) (w : World)
    → (approve env id by (in_state approval s) action account reason w
        ≡ approve env id by approval action account reason w)
      × (reject env id by (in_state approval s) action account reason w
          ≡ reject env id by approval action account reason w)
      × (request_changes env id by (in_state approval s) reason w
          ≡ request_changes env id by approval reason w)
unfolding approve approve_current approve_eligible approve_and_execute reject turn_down
    request_changes set_state
decisions_ignore_state env id by approval s action account reason w = (refl, refl, refl)
