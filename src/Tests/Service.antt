-- ===== src/Tests/Service.antt =====
-- Runs of the action service.
use account_pool.Base.{◌≡◌, refl, true, false, none, some, [], ◌∷◌}
use account_pool.Domain.Json.{end}
use account_pool.Domain.Enums.{ActionType, ActionState, ReviewState}
use account_pool.Domain.Models.{Action, ActionOutcome, acted}
use account_pool.Runtime.Errors.{ok}
use account_pool.Runtime.World.{World}
use account_pool.Db.Records.{upsert_action, find_by_idempotency_key}
use account_pool.Db.Audit.{record_event, append_event}
use account_pool.Db.Accounts.{get_connection}
use account_pool.Domain.Models.{ApprovalItem}
use account_pool.Table.{find, put}
use account_pool.Adapters.Fake.{fake_adapter, fake_capabilities, fake_publish, next_id, decimal}
use account_pool.Policy.Decisions.{to_steps}
use account_pool.Policy.Engine.{evaluate, run_guards}
use account_pool.Policy.Guards.{
  default_guards, account_active, lock, lock_at, authorization, capability, verb_capability,
  self_identification, rate_limit, manipulation, platform_rules, coordination, autonomy,
}
use account_pool.Policy.RateLimit.{check, check_at, consume, consume_at, prune, recent, rate_key}
use account_pool.Policy.Trackers.{would_coordinate, is_vote_kind, record_promo}
use account_pool.Policy.Promo.{is_promotional}
use account_pool.Policy.Context.{target_key}
use account_pool.Policy.Policies.{
  get_platform_policy, resolve_policy, rate_overrides, lower_rates, tighten, stricter_ratio,
}
use account_pool.Actions.Context.{load_session, build_ctx}
use account_pool.Actions.Execute.{
  dispatch, publish_by, record_execution, update_trackers, complete, succeed, finish, execute,
}
use account_pool.Actions.Submit.{WriteRequest, submit_write, submit_new, new_action, settle}
use account_pool.Policy.Window.{no_events}
use account_pool.Actions.Outcomes.{Logged}
use account_pool.Actions.Logging.{submit_write-logs_once}
use account_pool.Actions.Retry.{drawn_id, submit_write-retries}
use account_pool.Actions.Gate.{Gated, submit_write-Gated}
use account_pool.Actions.Calls.{AtMostOne, execute-AtMostOne}
use account_pool.Actions.Decide.{decide_approval}
use account_pool.Actions.Review.{CallsOr, Cleared, decide_approval-Cleared}
use account_pool.Tests.Fixtures.{env, account, draft, request, world, all_allow}

submit_write-Gated_example :
    Gated env "ann" account request world (submit_write env "ann" account request world).1
submit_write-Gated_example = submit_write-Gated env "ann" account request world

-- The post that is returned.
abbrev pub posted : Action
posted = record {
  action_id = "act_0";
  account_id = account.account_id;
  type = ActionType.publish;
  target = none;
  draft_id = some "d1";
  react_kind = none;
  requested_by = "ann";
  idempotency_key = some "k1";
  state = ActionState.done;
  decision_trace = to_steps all_allow.trace;
  result = some (
      ActionOutcome.platform (
        acted (record {
          ok = true;
          external_id = some "mastodon_ext_1";
          url = some "https://fake/mastodon_ext_1";
          dry_run = false;
          detail = end;
        })));
  scheduled_for = none;
  created_at = env.time 0;
  updated_at = env.time 1;
}

posts_once : (submit_write env "ann" account request world).0 ≡ ok posted
unfolding submit_write find_by_idempotency_key submit_new new_action settle build_ctx load_session
    get_connection evaluate run_guards default_guards account_active lock lock_at authorization
    capability verb_capability self_identification rate_limit check check_at prune recent rate_key
    manipulation is_vote_kind platform_rules coordination target_key would_coordinate autonomy
    fake_adapter fake_capabilities resolve_policy get_platform_policy rate_overrides lower_rates
    tighten stricter_ratio execute upsert_action find put dispatch publish_by fake_publish next_id
    decimal finish succeed update_trackers consume consume_at record_promo is_promotional complete
    record_execution record_event append_event
posts_once = refl

submit_write-logs_once_example :
    Logged world (submit_write env "ann" account request world).1 posted
submit_write-logs_once_example =
    submit_write-logs_once env "ann" account request world posted refl posts_once

-- The post is stored, and asked for again.
abbrev after_post : World
after_post = record world {
  actions = ("act_0", record { idempotency_key = some "k1"; payload = posted }) ∷ [];
}

-- Bob asks for a scheduled post with the key of Ann's.
abbrev later : WriteRequest
later = record request { scheduled_for = some 5 }

id_is_new : find (drawn_id env world) world.actions ≡ none
unfolding find
id_is_new = refl

-- The process was started again, and the audit log was moved away.
abbrev much_later : World
much_later = record (submit_write env "ann" account request world).1 {
  rate = no_events;
  audit = [];
  ticks = 100;
}

submit_write-retries_example :
    submit_write env "bob" account later much_later ≡ (ok posted, much_later)
submit_write-retries_example =
    submit_write-retries env "ann" account request "k1" later "bob" account world much_later posted
      refl refl id_is_new posts_once refl

execute-AtMostOne_example :
    AtMostOne env account world
      (execute env posted account (some draft) none none "ann" none world).1
execute-AtMostOne_example =
    execute-AtMostOne env posted account (some draft) none none "ann" none world

-- The post waits for approval.
abbrev pub pending : ApprovalItem
pending = record {
  approval_id = "appr_1";
  action_id = "act_0";
  account_id = account.account_id;
  review_state = ReviewState.opened;
  pinned_revision = some 1;
  decided_by = none;
  decided_at = none;
  reason = none;
  created_at = env.time 0;
  expires_at = some (env.time 86400);
}

abbrev waiting : World
waiting = record world {
  actions =
      (
        "act_0",
        record {
          idempotency_key = some "k1";
          payload = record posted { state = ActionState.needs_approval };
        },
      )
      ∷ [];
  approvals =
      (
        "appr_1",
        record { review_state = ReviewState.opened; updated_at = env.time 0; payload = pending },
      )
      ∷ [];
}

decide_approval-Cleared_example :
    CallsOr
      (Cleared env "appr_1" "approve" waiting)
      waiting
      (decide_approval env "appr_1" "approve" "olga" none waiting).1
decide_approval-Cleared_example = decide_approval-Cleared env "appr_1" "approve" "olga" none waiting
