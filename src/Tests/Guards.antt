-- ===== src/Tests/Guards.antt =====
-- Runs of the guards and of the overrides.
use account_pool.Base.{arith, ◌≡◌, ◌↔◌, refl, true, false, none, some, [], ◌∷◌}
use mathlib.Core.Path.{subst}
use account_pool.Base.Int.{pos}
use account_pool.Domain.Json.{Fields, end, field, num, obj}
use account_pool.Domain.Enums.{Platform, ActionType, DecisionOutcome, DenialCode}
use account_pool.Domain.Models.{Account, PlatformPolicy}
use account_pool.Runtime.Errors.{ok}
use account_pool.Adapters.Fake.{fake_capabilities}
use account_pool.Policy.Decisions.{PolicyResult, allow, deny}
use account_pool.Policy.Context.{GuardContext, target_key}
use account_pool.Policy.Engine.{evaluate, run_guards}
use account_pool.Policy.Guards.{
  default_guards, account_active, lock, lock_at, authorization, capability, verb_capability,
  self_identification, rate_limit, manipulation, platform_rules, coordination, autonomy,
}
use account_pool.Policy.RateLimit.{check, check_at, prune, recent, rate_key}
use account_pool.Policy.Trackers.{would_coordinate, is_vote_kind}
use account_pool.Policy.Policies.{
  get_platform_policy, mastodon_policy, resolve_policy, rate_overrides, lower_rates, lower_rate,
  min_limit, set_field, tighten, stricter_ratio,
}
use account_pool.Policy.Admission.{Admitted, evaluate-Admitted}
use account_pool.Policy.Chain.{Passed, run_guards-allow_iff}
use account_pool.Policy.Frame.{Untouched, evaluate-Untouched}
use account_pool.Policy.Votes.{vote_never_passes}
use account_pool.Policy.Tightening.{Tightens, AllLimits, resolve_policy-Tightens}
use account_pool.Policy.Lifting.{rate_override_lifts}
use account_pool.Base.Text.{lower, to_lower}
use account_pool.Tests.Fixtures.{env, account, context, world, all_allow}

allowed : evaluate env context world ≡ (ok all_allow, (evaluate env context world).1)
unfolding evaluate run_guards default_guards account_active lock lock_at authorization capability
    verb_capability self_identification rate_limit check check_at prune recent rate_key manipulation
    is_vote_kind platform_rules coordination target_key would_coordinate autonomy fake_capabilities
allowed = refl

evaluate-Admitted_example : Admitted env context world
evaluate-Admitted_example =
    evaluate-Admitted env context world (evaluate env context world).1 all_allow allowed refl

evaluate-Untouched_example : Untouched world (evaluate env context world).1
evaluate-Untouched_example = evaluate-Untouched env context world

run_guards-allow_iff_example :
    ((p : PolicyResult) × (run_guards (default_guards env) context [] world ≡ (ok p, world))
      × (p.outcome ≡ DecisionOutcome.allow))
    ↔ Passed (default_guards env) context world world
run_guards-allow_iff_example = run_guards-allow_iff (default_guards env) context [] world world

-- Ann votes for a status.
abbrev voting : GuardContext
voting = record context {
  action_type = ActionType.react;
  draft = none;
  target = some (record {
    raw = "status/1";
    platform = some Platform.mastodon;
    kind = none;
    container = none;
    parent_id = none;
    is_owned = false;
    resolved = true;
  });
  react_kind = some "UpVote";
}

abbrev blocked : PolicyResult
blocked = record {
  outcome = DecisionOutcome.deny;
  decision = deny "manipulation" DenialCode.vote_manipulation_blocked;
  trace =
      allow "account_active"
      ∷ allow "lock"
      ∷ allow "authorization"
      ∷ allow "capability"
      ∷ allow "self_identification"
      ∷ allow "rate_limit"
      ∷ deny "manipulation" DenialCode.vote_manipulation_blocked
      ∷ [];
}

is_blocked : (evaluate env voting world).0 ≡ ok blocked
unfolding evaluate run_guards default_guards account_active lock lock_at authorization capability
    verb_capability self_identification rate_limit check check_at prune recent rate_key manipulation
    is_vote_kind fake_capabilities lower to_lower
is_blocked = refl

is_vote : is_vote_kind voting.react_kind ≡ true
unfolding is_vote_kind lower to_lower
is_vote = refl

baseline : resolve_policy account ≡ ok mastodon_policy
unfolding resolve_policy get_platform_policy rate_overrides lower_rates tighten stricter_ratio
baseline = refl

vote_never_passes_example : blocked.outcome ≡ DecisionOutcome.deny
vote_never_passes_example =
    vote_never_passes env voting world refl is_vote baseline blocked is_blocked

-- Two posts a minute in place of five.
abbrev careful : Account
careful = record account {
  policy_overrides = field "rate_per_minute" (obj (field "publish" (num (pos 2)) end)) end;
}

abbrev careful_policy : PlatformPolicy
careful_policy = record mastodon_policy {
  rate_per_minute = set_field "publish" (num (pos 2)) mastodon_policy.rate_per_minute;
}

careful_resolves : resolve_policy careful ≡ ok careful_policy
unfolding resolve_policy get_platform_policy rate_overrides lower_rates lower_rate min_limit
    set_field tighten stricter_ratio
careful_resolves = refl

careful_limits :
    (items : Fields) → rate_overrides careful.policy_overrides ≡ ok items → AllLimits items
unfolding rate_overrides
careful_limits items e =
    let listed : ok (field "publish" (num (pos 2)) end) ≡ ok items = e in
    let same : field "publish" (num (pos 2)) end ≡ items = ground arith in
    subst AllLimits same ((λ n is. ground arith), tt)

resolve_policy-Tightens_example : Tightens (get_platform_policy Platform.mastodon) careful_policy
resolve_policy-Tightens_example =
    resolve_policy-Tightens careful careful_policy careful_limits careful_resolves

-- No posts a minute, as an operator may mean it.
abbrev muted : Account
muted = record account {
  policy_overrides = field "rate_per_minute" (obj (field "publish" (num (pos 0)) end)) end;
}

abbrev muted_policy : PlatformPolicy
muted_policy = record mastodon_policy {
  rate_per_minute = set_field "publish" (num (pos 0)) mastodon_policy.rate_per_minute;
}

muted_resolves : resolve_policy muted ≡ ok muted_policy
unfolding resolve_policy get_platform_policy rate_overrides lower_rates lower_rate min_limit
    set_field tighten stricter_ratio
muted_resolves = refl

abbrev muted_context : GuardContext
muted_context = record context { account = muted; policy = muted_policy }

rate_override_lifts_example : rate_limit env muted_context world ≡ (ok (allow "rate_limit"), world)
rate_override_lifts_example =
    rate_override_lifts env muted_context world (pos 0) refl refl muted_resolves
