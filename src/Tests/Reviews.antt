-- ===== src/Tests/Reviews.antt =====
-- Runs of reviews, of reads and of a checkout.
use account_pool.Base.{◌+◌, ◌*◌, ◌≡◌, refl, false, none, some, [], ◌∷◌}
use account_pool.Base.Int.{pos}
use account_pool.Table.{find, put}
use account_pool.Domain.Json.{end, field, text}
use account_pool.Domain.Enums.{ActionType, ActionState, ConsentScope, DenialCode, ReviewState}
use account_pool.Domain.Models.{Account, Action, LockLease, ActionOutcome, found, add_seconds}
use account_pool.Runtime.Errors.{ok}
use account_pool.Db.Accounts.{
  account_row, get_account, get_connection, compare_and_set, write_account, update_account,
}
use account_pool.Db.Records.{upsert_action}
use account_pool.Db.Audit.{record_event, append_event}
use account_pool.Adapters.Fake.{fake_adapter, fake_capabilities, results, decimal}
use account_pool.Locking.{
  checkin, require_account, held_by_other, with_lock, prepare_checkout, checkout_rounds, checkout,
  ttl_or,
}
use account_pool.Locking.Checkout.{Leased}
use account_pool.Locking.Asked.{checkout-Asked}
use account_pool.Locking.Obtaining.{checkout-Obtains, Freed, checkin-checkout}
use account_pool.Policy.Decisions.{to_steps}
use account_pool.Policy.Engine.{evaluate, run_guards}
use account_pool.Policy.Guards.{
  default_guards, account_active, lock, lock_at, authorization, capability, verb_capability,
  self_identification, rate_limit, manipulation, platform_rules, coordination, autonomy,
}
use account_pool.Policy.RateLimit.{check, check_at, consume, consume_at, prune, recent, rate_key}
use account_pool.Policy.Policies.{
  get_platform_policy, resolve_policy, rate_overrides, lower_rates, tighten, stricter_ratio,
}
use account_pool.Actions.Context.{load_session, build_ctx}
use account_pool.Actions.Drafts.{DraftChanges, update_draft}
use account_pool.Actions.Decide.{approve, reject, request_changes}
use account_pool.Actions.Reopened.{in_state, decisions_ignore_state}
use account_pool.Actions.Stale.{TurnedDown, update_draft-makes_stale}
use account_pool.Actions.Outcomes.{Logged}
use account_pool.Actions.Reads.{ReadRequest, new_read, report, perform_read, run_read}
use account_pool.Actions.Reading.{run_read-logs_once}
use account_pool.Tests.Fixtures.{env, account, world-KeyedRows, draft, world, second, all_allow}
use account_pool.Tests.Service.{posted, pending}

abbrev changes : DraftChanges
changes = record { body = some "hello again"; title = none; media_refs = none; disclosure = none }

drafted : find "d1" world.drafts ≡ some draft
unfolding find
drafted = refl

update_draft-makes_stale_example :
    let u = (update_draft env "d1" changes world).1 in
    TurnedDown "appr_1" "olga" pending posted DenialCode.approval_stale u
      (approve env "appr_1" "olga" pending posted account none u)
update_draft-makes_stale_example =
    update_draft-makes_stale env "appr_1" "olga" pending posted account changes none draft world
      drafted refl refl

decisions_ignore_state_example :
    let approved = in_state pending ReviewState.approved in
    (approve env "appr_1" "olga" approved posted account none world
      ≡ approve env "appr_1" "olga" pending posted account none world)
    × (reject env "appr_1" "olga" approved posted account none world
        ≡ reject env "appr_1" "olga" pending posted account none world)
    × (request_changes env "appr_1" "olga" approved none world
        ≡ request_changes env "appr_1" "olga" pending none world)
decisions_ignore_state_example =
    decisions_ignore_state env "appr_1" "olga" pending ReviewState.approved posted account none
      world

-- Ann takes the lease again; nobody else is about.
abbrev lease_again : LockLease
lease_again = record {
  holder = "ann";
  token = env.random 0;
  acquired_at = env.time 0;
  expires_at = second * 1900;
}

abbrev leased : Account
leased = record (with_lock account (some lease_again)) {
  record_version = 4;
  updated_at = env.time 1;
}

ann_checks_out : (checkout env (λ n w. w) account.account_id "ann" none world).0 ≡ ok leased
unfolding checkout ttl_or checkout_rounds prepare_checkout require_account get_account find
    held_by_other add_seconds update_account write_account compare_and_set
ann_checks_out = refl

checkout-Asked_example :
    (leased.account_id ≡ account.account_id)
    × (find account.account_id
          (checkout env (λ n w. w) account.account_id "ann" none world).1.accounts
        ≡ some (account_row leased))
    × Leased "ann" (checkout env (λ n w. w) account.account_id "ann" none world).1 leased
checkout-Asked_example =
    checkout-Asked env (λ n w. w) account.account_id "ann" none world leased (λ n u keyed. keyed)
      world-KeyedRows ann_checks_out

checkin-checkout_example : Freed leased (
    checkin env account.account_id "ann"
      (env.random 0)
      (checkout env (λ n w. w) account.account_id "ann" none world).1)
checkin-checkout_example =
    checkin-checkout env (λ n w. w) account.account_id "ann" none world leased lease_again
      ann_checks_out refl

account_stored : find account.account_id world.accounts ≡ some (account_row account)
unfolding find
account_stored = refl

not_bobs : held_by_other account "ann" (env.time 0) ≡ false
unfolding held_by_other
not_bobs = refl

lease_ends : add_seconds (env.time 0) (ttl_or none env.default_lock_ttl) ≡ some (second * 1900)
unfolding add_seconds ttl_or
lease_ends = refl

checkout-Obtains_example :
    (a : Account) × ((checkout env (λ n w. w) account.account_id "ann" none world).0 ≡ ok a)
    × (a.record_version ≡ account.record_version + 1)
    × (a.lock ≡ some lease_again)
    × Leased "ann" (checkout env (λ n w. w) account.account_id "ann" none world).1 a
checkout-Obtains_example =
    checkout-Obtains env (λ n w. w) "ann" none account (second * 1900) world account_stored not_bobs
      lease_ends (λ u. refl)

-- Anyone may search, where the owner consents to reading.
abbrev readable : Account
readable = record account {
  authorization = record account.authorization { consent_scope = ConsentScope.read ∷ [] };
}

abbrev searched : Action
searched = record {
  action_id = "act_0";
  account_id = account.account_id;
  type = ActionType.search;
  target = none;
  draft_id = none;
  react_kind = none;
  requested_by = "bob";
  idempotency_key = none;
  state = ActionState.done;
  decision_trace = to_steps all_allow.trace;
  result = some (
      ActionOutcome.platform (
        found (record {
          items = field "id" (text "result-0") (field "text" (text "cats #0") end) ∷ [];
          detail = end;
        })));
  scheduled_for = none;
  created_at = env.time 0;
  updated_at = env.time 1;
}

bob_searches :
    (run_read env "bob" readable (ReadRequest.query "cats" (pos 1)) world).0 ≡ ok searched
unfolding run_read new_read build_ctx load_session get_connection evaluate run_guards default_guards
    account_active lock lock_at authorization capability verb_capability self_identification
    rate_limit check check_at prune recent rate_key manipulation platform_rules coordination
    autonomy fake_adapter fake_capabilities results decimal resolve_policy get_platform_policy
    rate_overrides lower_rates tighten stricter_ratio perform_read consume consume_at report
    upsert_action find put record_event append_event
bob_searches = refl

run_read-logs_once_example :
    Logged world (run_read env "bob" readable (ReadRequest.query "cats" (pos 1)) world).1 searched
run_read-logs_once_example =
    run_read-logs_once env "bob" readable (ReadRequest.query "cats" (pos 1)) world searched
      bob_searches
