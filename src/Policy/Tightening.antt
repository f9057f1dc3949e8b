-- ===== src/Policy/Tightening.antt =====
-- What the overrides of an account can do to a baseline (policy/policies.py).
use account_pool.Base.{
  String, ◌≡◌, refl, true, false, Option, none, some, arith, str_eq, eq_iff, if◌then◌else◌,
  Option-cases, Bool-cases, inl, inr,
}
use account_pool.Base.Int.{ℤ, pos, negsuc, ltb_ℤ, not_positive}
use account_pool.Domain.Json.{Json, Fields, end, field, get_field, as_int}
use account_pool.Domain.Models.{Account, PlatformPolicy}
use account_pool.Runtime.Errors.{ok, Result-cases}
use account_pool.Policy.Policies.{
  get_platform_policy, set_field, min_limit, lower_rate, lower_rates, rate_overrides,
  stricter_ratio, tighten, resolve_policy,
}

-- At most, on Python's integers.
abbrev pub AtMost : ℤ → ℤ → Type 0
AtMost a b = ltb_ℤ b a ≡ false

pub AtMost-refl : (a : ℤ) → AtMost a a
AtMost-refl (pos n) = ground arith
AtMost-refl (negsuc n) = ground arith

AtMost-trans : (a b c : ℤ) → AtMost a b → AtMost b c → AtMost a c
AtMost-trans a b c h k = ground arith

-- A key of the dict holds a number that policy/ratelimit.py enforces, so above 0, and at most a bound.
abbrev pub Limited : String → ℤ → Fields → Type 0
Limited verb bound rates =
    (v : Json) × (n : ℤ) × (get_field verb rates ≡ some v)
    × (as_int v ≡ some n)
    × (not_positive n ≡ false)
    × AtMost n bound

-- A value that is a number is a limit, and not the absence of one.
abbrev pub IsLimit : Json → Type 0
IsLimit v = (n : ℤ) → as_int v ≡ some n → not_positive n ≡ false

abbrev pub AllLimits : Fields → Type 0
AllLimits end = Unit
AllLimits (field k v rest) = IsLimit v × AllLimits rest

pub get_field-set_field :
    (k j : String) (v : Json) (fs : Fields)
    → get_field j (set_field k v fs) ≡ (if str_eq k j then some v else get_field j fs)
unfolding set_field
get_field-set_field k j v end = refl
get_field-set_field k j v (field i w fs) =
    ground (arith, eq_iff k j, eq_iff i k, eq_iff i j, get_field-set_field k j v fs)

min_limit-IsLimit :
    (c l m : Json) (n : ℤ)
    → min_limit c l ≡ ok m
    → as_int c ≡ some n
    → not_positive n ≡ false
    → IsLimit l
    → (k : ℤ) × (as_int m ≡ some k) × (not_positive k ≡ false) × AtMost k n
unfolding min_limit
min_limit-IsLimit c l m n e h positive set = elim (Option-cases (as_int l)) [
  | inl none_there ↦ absurd (ground arith)
  | inr (k, found) ↦ elim (Bool-cases (ltb_ℤ k n)) [
    | inl less ↦ (k, ground arith, set k found, ground arith)
    | inr more ↦ (n, ground arith, positive, AtMost-refl n)
  ]
]

-- One overriding limit keeps every enforced bound.
lower_rate-Limited :
    (verb k : String) (limit : Json) (bound : ℤ) (rates lower : Fields)
    → lower_rate k limit rates ≡ ok lower
    → IsLimit limit
    → Limited verb bound rates
    → Limited verb bound lower
unfolding lower_rate
lower_rate-Limited verb k limit bound rates lower e set (v, n, found, int, positive, le) =
    elim (Bool-cases (str_eq k verb)) [
      | inl same ↦ elim (Result-cases (min_limit v limit)) [
        | inl (x, failed) ↦ absurd (ground (arith, eq_iff k verb))
        | inr (m, least) ↦
            let (j, int', positive', le') = min_limit-IsLimit v limit m n least int positive set in
            (
              m,
              j,
              ground (arith, eq_iff k verb, get_field-set_field k verb m rates),
              int',
              positive',
              AtMost-trans j n bound le' le,
            )
      ]
      | inr other ↦ elim (Option-cases (get_field k rates)) [
        | inl fresh ↦
            (v, n, ground (arith, get_field-set_field k verb limit rates), int, positive, le)
        | inr (c, there) ↦ elim (Result-cases (min_limit c limit)) [
          | inl (x, failed) ↦ absurd (ground arith)
          | inr (m, least) ↦
              (v, n, ground (arith, get_field-set_field k verb m rates), int, positive, le)
        ]
      ]
    ]

lower_rates-Limited :
    (verb : String) (bound : ℤ) (items rates lower : Fields)
    → lower_rates items rates ≡ ok lower
    → AllLimits items
    → Limited verb bound rates
    → Limited verb bound lower
unfolding lower_rates
lower_rates-Limited verb bound end rates lower e set h = ground arith
lower_rates-Limited verb bound (field k limit items) rates lower e set h =
    elim (Result-cases (lower_rate k limit rates)) [
      | inl (x, failed) ↦ absurd (ground arith)
      | inr (mid, lowered) ↦
          lower_rates-Limited verb bound items mid lower (ground arith) set.1
            (lower_rate-Limited verb k limit bound rates mid lowered set.0 h)
    ]

stricter_ratio-AtMost : (o : Option Json) (r : ℤ) → AtMost r (stricter_ratio o r)
unfolding stricter_ratio
stricter_ratio-AtMost none r = AtMost-refl r
stricter_ratio-AtMost (some v) r = ground (arith, AtMost-refl r)

-- A policy that is at least as strict as a baseline.
pub record Tightens (b p : PlatformPolicy) : Type 0 where
  pub platform : p.platform ≡ b.platform
  pub publish_mode : p.publish_mode ≡ b.publish_mode
  pub allowed_verbs : p.allowed_verbs ≡ b.allowed_verbs
  pub react_allowed : p.react_allowed ≡ b.react_allowed
  pub vote_allowed : p.vote_allowed ≡ b.vote_allowed
  pub requires_bot_flag : b.requires_bot_flag ≡ true → p.requires_bot_flag ≡ true
  pub requires_self_label : b.requires_self_label ≡ true → p.requires_self_label ≡ true
  pub self_promo_ratio : AtMost b.self_promo_ratio p.self_promo_ratio
  -- where a limit of the baseline is enforced, one that is no larger is enforced
  pub limits :
      (verb : String) (bound : ℤ)
      → Limited verb bound b.rate_per_minute
      → Limited verb bound p.rate_per_minute

tighten-Tightens :
    (overrides rates : Fields) (b : PlatformPolicy)
    → ((verb : String) (bound : ℤ)
        → Limited verb bound b.rate_per_minute
        → Limited verb bound rates)
    → Tightens b (tighten overrides rates b)
unfolding tighten
tighten-Tightens overrides rates b lowered = record {
  platform = refl;
  publish_mode = refl;
  allowed_verbs = refl;
  react_allowed = refl;
  vote_allowed = refl;
  requires_bot_flag = λ set. ground arith;
  requires_self_label = λ set. ground arith;
  self_promo_ratio =
      stricter_ratio-AtMost (get_field "self_promo_ratio" overrides) b.self_promo_ratio;
  limits = lowered;
}

-- A policy that resolves is the tightened baseline, with limits that the loop has lowered.
pub resolve_policy-eq_ok :
    (a : Account) (p : PlatformPolicy)
    → resolve_policy a ≡ ok p
    → (items : Fields) × (rates : Fields) × (rate_overrides a.policy_overrides ≡ ok items)
      × (lower_rates items (get_platform_policy a.platform).rate_per_minute ≡ ok rates)
      × (p ≡ tighten a.policy_overrides rates (get_platform_policy a.platform))
unfolding resolve_policy
resolve_policy-eq_ok a p e = elim (Result-cases (rate_overrides a.policy_overrides)) [
  | inl (x, failed) ↦ absurd (ground arith)
  | inr (items, listed) ↦
      elim (Result-cases (lower_rates items (get_platform_policy a.platform).rate_per_minute)) [
        | inl (x, failed) ↦ absurd (ground arith)
        | inr (rates, lowered) ↦ (items, rates, listed, lowered, ground arith)
      ]
]

-- Where no overriding limit of the rate is 0 or below, which policy/ratelimit.py reads as no limit, a
-- policy that resolves is a tightening of its platform's baseline: what the limiter enforces for a
-- verb under the baseline is still enforced, with no larger number.
pub resolve_policy-Tightens :
    (a : Account) (p : PlatformPolicy)
    → ((items : Fields) → rate_overrides a.policy_overrides ≡ ok items → AllLimits items)
    → resolve_policy a ≡ ok p
    → Tightens (get_platform_policy a.platform) p
resolve_policy-Tightens a p set e =
    let (items, rates, listed, lowered, same) = resolve_policy-eq_ok a p e in
    let baseline = get_platform_policy a.platform in
    rw same (
      tighten-Tightens a.policy_overrides rates baseline (λ verb bound.
        lower_rates-Limited verb bound items baseline.rate_per_minute rates lowered
          (set items listed)))
