-- ===== src/Server/Access.antt =====
-- server/rest_admin.py: who is answered 401.
use Prim.Native.String.{◌++◌ as append}
use account_pool.Base.{
  ℕ, String, true, false, ◌||◌, Option, none, some, ◌≡◌, ◌↔◌, refl, inl, inr, str_eq, arith, ap,
  eq_iff, eq_refl, Bool-cases, Option-cases,
}
use account_pool.Domain.Json.{Fields}
use account_pool.Domain.Models.{Persona}
use account_pool.Runtime.Errors.{Error, Result, ok, raised}
use account_pool.Runtime.World.{Env, World}
use account_pool.Adapters.Net.{Network}
use account_pool.Actions.Context.{given}
use account_pool.Server.Routes.{Route, Surface, is_open, may_enter}
use account_pool.Server.Views.{Payload}
use account_pool.Server.Answers.{Answer, answer, error_status, handle, serve}

-- A caller who is not to be let in: where a token is set, one with another header or none; where none
-- is set, anyone at all in production.
pub record IsStranger (s : Surface) (header : Option String) : Type 0 where
  pub wrong_header :
      (token : String) → given s.bearer ≡ some token → ¬ (header ≡ some (append "Bearer " token))
  pub closed : given s.bearer ≡ none → s.is_prod ≡ true

answer-code : (r : Result Payload) → ¬ ((answer r).code ≡ 401)
unfolding answer error_status
answer-code (ok p) e = omega arith
answer-code (raised Error.not_found) e = omega arith
answer-code (raised _) e = omega arith

may_enter-stranger :
    (s : Surface) (header : Option String) → may_enter s header ≡ false → IsStranger s header
unfolding may_enter
may_enter-stranger s header out = record {
  wrong_header = λ token set same.
      let equal : str_eq (append "Bearer " token) (append "Bearer " token) ≡ true = eq_refl _ in
      absurd (ground arith);
  closed = λ unset. ground arith;
}

other_header :
    (header : Option String) (expected : String)
    → ¬ (header ≡ some expected)
    → elim header [ none ↦ false | some h ↦ str_eq h expected ] ≡ false
other_header none expected differ = refl
other_header (some h) expected differ = elim (Bool-cases (str_eq h expected)) [
  | inl same ↦ absurd (differ (ap some ((eq_iff h expected).0 same)))
  | inr other ↦ other
]

stranger-may_enter :
    (s : Surface) (header : Option String) → IsStranger s header → may_enter s header ≡ false
unfolding may_enter
stranger-may_enter s header stranger = elim (Option-cases (given s.bearer)) [
  | inl unset ↦ let prod : s.is_prod ≡ true = stranger.closed unset in ground arith
  | inr (token, set) ↦
      let out = other_header header (append "Bearer " token) (stranger.wrong_header token set) in
      ground arith
]

module _ (parse_persona : Fields → Option Persona) (net : Network) (env : Env)
    (meanwhile : ℕ → World → World) (s : Surface) (header : Option String) (route : Route)
    (w : World) where
  served : Answer × World
  served = serve parse_persona net env meanwhile s header route w

  refused : served.0.code ≡ 401 → (is_open route ≡ false) × (IsStranger s header) × (served.1 ≡ w)
  unfolding served serve
  refused e = elim (Bool-cases (is_open route || may_enter s header)) [
    | inl inside ↦
        absurd (answer-code (handle parse_persona net env meanwhile route w).0 (ground arith))
    | inr outside ↦
        let out : may_enter s header ≡ false = ground arith in
        (ground arith, may_enter-stranger s header out, ground arith)
  ]

  turned_away :
      (is_open route ≡ false) × (IsStranger s header) → (served.0.code ≡ 401) × (served.1 ≡ w)
  unfolding served serve
  turned_away (guarded, stranger) =
      let out : may_enter s header ≡ false = stranger-may_enter s header stranger in
      (ground arith, ground arith)

module _ (parse_persona : Fields → Option Persona) (net : Network) (env : Env)
    (meanwhile : ℕ → World → World) where
  -- For any services, settings, header, route and state: the answer has the status 401 exactly when the
  -- route is a guarded one and the caller a stranger, one whose header is not the token that is set or,
  -- where none is set, anyone in production; and exactly then it has that status and the state is as
  -- before. No failure of a handler is answered 401.
  pub serve-unauthorized_iff :
      (s : Surface) (header : Option String) (route : Route) (w : World)
      → let (reply, after) = serve parse_persona net env meanwhile s header route w in
        (reply.code ≡ 401 ↔ (is_open route ≡ false) × (IsStranger s header))
        × ((reply.code ≡ 401) × (after ≡ w) ↔ (is_open route ≡ false) × (IsStranger s header))
  unfolding served
  serve-unauthorized_iff s header route w =
      let only = refused parse_persona net env meanwhile s header route w in
      let when = turned_away parse_persona net env meanwhile s header route w in
      (
        (λ e. ((only e).0, (only e).1), λ p. (when p).0),
        (λ (e, same). ((only e).0, (only e).1), when),
      )
