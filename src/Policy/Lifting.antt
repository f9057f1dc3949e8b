-- ===== src/Policy/Lifting.antt =====
-- A limit of 0 or below between policy/policies.py, which lowers to it, and policy/ratelimit.py,
-- which reads it as no limit.
use account_pool.Base.{
  String, ◌≡◌, refl, true, some, arith, eq_refl, Option-cases, Bool-cases, inl, inr,
}
use account_pool.Base.Int.{ℤ, ltb_ℤ, not_positive}
use account_pool.Domain.Json.{Json, Fields, end, field, num, obj, get_field, as_int}
use account_pool.Domain.Enums.{verb_value}
use account_pool.Runtime.Errors.{ok, Result-cases}
use account_pool.Runtime.World.{World, Env}
use account_pool.Policy.Decisions.{allow}
use account_pool.Policy.Context.{GuardContext}
use account_pool.Policy.RateLimit.{check}
use account_pool.Policy.Guards.{rate_limit}
use account_pool.Policy.Policies.{
  get_platform_policy, min_limit, lower_rate, lower_rates, rate_overrides, tighten, resolve_policy,
}
use account_pool.Policy.Tightening.{AtMost, AtMost-refl, get_field-set_field, resolve_policy-eq_ok}

-- A key of the dict holds a number that is at most a bound.
abbrev Bounded : String → ℤ → Fields → Type 0
Bounded verb bound rates =
    (v : Json) × (n : ℤ) × (get_field verb rates ≡ some v) × (as_int v ≡ some n) × AtMost n bound

min_limit-num :
    (c m : Json) (z : ℤ) → min_limit c (num z) ≡ ok m → (k : ℤ) × (as_int m ≡ some k) × AtMost k z
unfolding min_limit
min_limit-num c m z e = elim (Option-cases (as_int c)) [
  | inl none_there ↦ absurd (ground arith)
  | inr (n, found) ↦ elim (Bool-cases (ltb_ℤ z n)) [
    | inl less ↦ (z, ground arith, AtMost-refl z)
    | inr more ↦ (n, ground arith, more)
  ]
]

-- An overriding number bounds what is left of the limit.
lower_rate-num :
    (verb : String) (z : ℤ) (rates lower : Fields)
    → lower_rate verb (num z) rates ≡ ok lower
    → Bounded verb z lower
unfolding lower_rate
lower_rate-num verb z rates lower e = elim (Option-cases (get_field verb rates)) [
  | inl fresh ↦ (
    num z,
    z,
    ground (arith, get_field-set_field verb verb (num z) rates, eq_refl verb),
    refl,
    AtMost-refl z,
  )
  | inr (c, there) ↦ elim (Result-cases (min_limit c (num z))) [
    | inl (x, failed) ↦ absurd (ground arith)
    | inr (m, least) ↦
        let (k, int, le) = min_limit-num c m z least in
        (m, k, ground (arith, get_field-set_field verb verb m rates, eq_refl verb), int, le)
  ]
]

AtMost-not_positive : (k z : ℤ) → AtMost k z → not_positive z ≡ true → not_positive k ≡ true
AtMost-not_positive k z le low = ground arith

-- The guard lets every request pass where the limit of its verb is 0 or below.
rate_limit-lifted :
    (env : Env) (ctx : GuardContext) (w : World) (v : Json) (k : ℤ)
    → get_field (verb_value ctx.action_type) ctx.policy.rate_per_minute ≡ some v
    → as_int v ≡ some k
    → not_positive k ≡ true
    → rate_limit env ctx w ≡ (ok (allow "rate_limit"), w)
unfolding rate_limit check
rate_limit-lifted env ctx w v k found int low = ground arith

-- Where an account's overrides only set the limit of a verb to 0 or below, and its policy resolves, the
-- guard of the rate allows the verb whatever the account has already used.
pub rate_override_lifts :
    (env : Env) (ctx : GuardContext) (w : World) (z : ℤ)
    → ctx.account.policy_overrides
      ≡ field "rate_per_minute" (obj (field (verb_value ctx.action_type) (num z) end)) end
    → not_positive z ≡ true
    → resolve_policy ctx.account ≡ ok ctx.policy
    → rate_limit env ctx w ≡ (ok (allow "rate_limit"), w)
unfolding rate_overrides lower_rates tighten
rate_override_lifts env ctx w z overrides low policy =
    let (items, rates, listed, lowered, same) =
      resolve_policy-eq_ok ctx.account ctx.policy policy in
    let verb = verb_value ctx.action_type in
    let one : items ≡ field verb (num z) end = ground arith in
    let single : lower_rate verb (num z) (get_platform_policy ctx.account.platform).rate_per_minute
        ≡ ok rates =
      ground (
        arith,
        Result-cases
            (lower_rate verb (num z) (get_platform_policy ctx.account.platform).rate_per_minute),
      ) in
    let (v, k, found, int, le) =
      lower_rate-num verb z (get_platform_policy ctx.account.platform).rate_per_minute rates
        single in
    rate_limit-lifted env ctx w v k (ground arith) int (AtMost-not_positive k z le low)
