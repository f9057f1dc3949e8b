-- ===== src/Server/Lifecycle.antt =====
-- server/rest_admin.py: what the routes over the life of an account keep, `create_account` with its
-- three calls among them.
use account_pool.Base.{ℕ, String, Bool, true, false, Option, ◌≡◌, ◌||◌, Bool-cases, inl, inr, arith}
use account_pool.Domain.Json.{Json, Fields, truthy}
use account_pool.Domain.Models.{Account, Persona}
use account_pool.Runtime.Errors.{Result}
use account_pool.Runtime.World.{Env, World}
use account_pool.Runtime.Monad.{Prog, pure, ◌>>=◌}
use account_pool.Adapters.Net.{Network}
use account_pool.Actions.Context.{lift}
use account_pool.Accounts.Honesty.{AllHonest, Keeps, Keeps-then}
use account_pool.Accounts.Administration.{Administration, administer, administer-AllHonest}
use account_pool.Server.Routes.{Route, Surface, is_open, may_enter}
use account_pool.Server.Rest.{
  authorize_with, connect_with, register_with, if_asked, created, text_at, texts_at, credentials_of,
}
use account_pool.Server.Views.{Payload}
use account_pool.Server.Bodies.{
  must, may, text_or, as_text, as_text?, as_fields, as_fields?, as_texts, as_texts?,
}
use account_pool.Server.Answers.{handle, serve}

-- What keeps the pool honest from any state.
abbrev KeepsAll : {A : Type 0} → Prog A → Type 0
KeepsAll m = (w : World) → Keeps w (m w).1

then :
    {A B : Type 0} (m : Prog A) (f : A → Prog B)
    → KeepsAll m
    → ((a : A) → KeepsAll (f a))
    → KeepsAll (m >>= f)
then m f first rest w = Keeps-then w (m w) f (first w) λ a _. rest a (m w).1

given_args :
    {A B : Type 0} (r : Result A) (f : A → Prog B)
    → ((a : A) → KeepsAll (f a))
    → KeepsAll (lift r >>= f)
given_args r f rest = then (lift r) f (λ w all. all) rest

must_then :
    {A : Type 0} (f : Json → Result A) (k : String) (body : Fields)
    → KeepsAll (lift (must k body) >>= λ v. lift (f v))
must_then f k body = given_args (must k body) (λ v. lift (f v)) λ v w all. all

-- The routes that change accounts by one administrative operation or more.
unfoldable pub is_lifecycle : Route → Bool
is_lifecycle (Route.create_account body) = true
is_lifecycle (Route.authorize id body) = true
is_lifecycle (Route.connect id body) = true
is_lifecycle (Route.refresh_credentials id body) = true
is_lifecycle (Route.account_health id body) = true
is_lifecycle (Route.retire id body) = true
is_lifecycle (Route.revoke id body) = true
is_lifecycle (Route.disconnect id body) = true
is_lifecycle _ = false

module _ (parse_persona : Fields → Option Persona) (net : Network) (env : Env) where
  op-Keeps :
      (caller : String) (op : Administration) → KeepsAll (administer parse_persona env caller op)
  op-Keeps caller op w = administer-AllHonest parse_persona env caller op w

  authorize_with-Keeps :
      (caller id : String) (body : Fields)
      → KeepsAll (authorize_with parse_persona net env caller id body)
  unfolding authorize_with
  authorize_with-Keeps caller id body =
      then (text_at "owner" body) _ (must_then as_text "owner" body) λ owner.
        then (texts_at "consent_scope" body) _ (must_then as_texts "consent_scope" body) λ scopes.
          given_args (as_text? (may "evidence_ref" body)) _ λ evidence.
            given_args (as_text? (may "attested_by" body)) _ λ attested.
              op-Keeps caller (Administration.authorizing id owner scopes evidence attested)

  connect_with-Keeps :
      (caller id : String) (body : Fields)
      → KeepsAll (connect_with parse_persona net env caller id body)
  unfolding connect_with
  connect_with-Keeps caller id body =
      then (text_at "auth_type" body) _ (must_then as_text "auth_type" body) λ kind.
        then (credentials_of body) _ (λ w all. all)
          λ credentials. given_args (as_texts? (may "scopes" body)) _ λ scopes.
            given_args (as_text? (may "provider" body)) _ λ provider.
              op-Keeps caller (Administration.connecting id kind credentials scopes provider)

  register_with-Keeps :
      (caller : String) (body : Fields) → KeepsAll (register_with parse_persona net env caller body)
  unfolding register_with
  register_with-Keeps caller body =
      then (text_at "platform" body) _ (must_then as_text "platform" body) λ platform.
        then (text_at "handle" body) _ (must_then as_text "handle" body) λ handle.
          given_args (as_text? (may "display_name" body)) _ λ name.
            given_args (as_fields? (may "persona" body)) _ λ persona.
              given_args (as_text? (may "pool" body)) _ λ pool.
                given_args (as_texts? (may "tags" body)) _ λ tags.
                  op-Keeps caller
                    (Administration.registering platform handle name persona pool tags)

  if_asked-Keeps :
      (step : Fields → Prog Account) (v : Json) (a : Account)
      → ((part : Fields) → KeepsAll (step part))
      → KeepsAll (if_asked parse_persona net env step v a)
  unfolding if_asked
  if_asked-Keeps step v a each w = elim (Bool-cases (truthy v)) [
    | inl asked ↦ simp asked (given_args (as_fields v) step each w)
    | inr left_out ↦ simp left_out λ all. all
  ]

  created-Keeps : (body : Fields) → KeepsAll (created parse_persona net env body)
  unfolding created
  created-Keeps body = given_args (text_or "agent_name" "admin" body) _ λ caller.
      then (register_with parse_persona net env caller body) _ (register_with-Keeps caller body)
        λ fresh.
          then
            (if_asked parse_persona net env
              (authorize_with parse_persona net env caller fresh.account_id) (may "authorize" body)
              fresh)
            _
            (if_asked-Keeps (authorize_with parse_persona net env caller fresh.account_id)
              (may "authorize" body) fresh (authorize_with-Keeps caller fresh.account_id))
            λ granted.
              if_asked-Keeps (connect_with parse_persona net env caller fresh.account_id)
                (may "connect" body) granted (connect_with-Keeps caller fresh.account_id)

  module _ (meanwhile : ℕ → World → World) where
    shown-Keeps :
        (m : Prog Account) (f : Account → Payload) → KeepsAll m → KeepsAll (m >>= λ a. pure (f a))
    shown-Keeps m f keeps = then m (λ a. pure (f a)) keeps λ a w all. all

    handle-Keeps :
        (route : Route)
        → is_lifecycle route ≡ true
        → KeepsAll (handle parse_persona net env meanwhile route)
    unfolding handle is_lifecycle
    handle-Keeps (Route.create_account body) e =
        shown-Keeps (created parse_persona net env body) _ (created-Keeps body)
    handle-Keeps (Route.authorize id body) e =
        given_args (text_or "agent_name" "admin" body) _ λ caller.
          shown-Keeps (authorize_with parse_persona net env caller id body) _
            (authorize_with-Keeps caller id body)
    handle-Keeps (Route.connect id body) e =
        given_args (text_or "agent_name" "admin" body) _ λ caller.
          shown-Keeps (connect_with parse_persona net env caller id body) _
            (connect_with-Keeps caller id body)
    handle-Keeps (Route.refresh_credentials id body) e =
        given_args (text_or "agent_name" "admin" body) _ λ caller.
          shown-Keeps (administer parse_persona env caller (Administration.refreshing id)) _
            (op-Keeps caller (Administration.refreshing id))
    handle-Keeps (Route.account_health id body) e =
        given_args (text_or "agent_name" "admin" body) _ λ caller.
          shown-Keeps (administer parse_persona env caller (Administration.checking id)) _
            (op-Keeps caller (Administration.checking id))
    handle-Keeps (Route.retire id body) e =
        given_args (text_or "agent_name" "admin" body) _ λ caller.
          given_args (as_text? (may "reason" body)) _ λ reason.
            shown-Keeps (administer parse_persona env caller (Administration.retiring id)) _
              (op-Keeps caller (Administration.retiring id))
    handle-Keeps (Route.revoke id body) e =
        given_args (text_or "agent_name" "admin" body) _ λ caller.
          given_args (as_text? (may "reason" body)) _ λ reason.
            shown-Keeps (administer parse_persona env caller (Administration.revoking id)) _
              (op-Keeps caller (Administration.revoking id))
    handle-Keeps (Route.disconnect id body) e =
        given_args (text_or "agent_name" "admin" body) _ λ caller.
          shown-Keeps (administer parse_persona env caller (Administration.disconnecting id)) _
            (op-Keeps caller (Administration.disconnecting id))
    handle-Keeps _ e = absurd (ground arith)

    -- From a pool in which every active account has a connection and an authorization in force, a request
    -- to register, authorize, connect, refresh, check, retire, revoke or disconnect leads to such a pool,
    -- whatever its header and its body and however it is answered. A request to register may carry an
    -- authorization and a connection, and what was written before a later call of it failed stays.
    pub serve-AllHonest :
        (s : Surface) (header : Option String) (route : Route) (w : World)
        → is_lifecycle route ≡ true
        → AllHonest w.accounts
        → AllHonest (serve parse_persona net env meanwhile s header route w).1.accounts
    unfolding serve
    serve-AllHonest s header route w lifecycle all =
        elim (Bool-cases (is_open route || may_enter s header)) [
          | inl inside ↦ simp inside (handle-Keeps route lifecycle w all)
          | inr outside ↦ simp outside all
        ]
