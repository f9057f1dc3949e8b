-- ===== src/Server/Harmless.antt =====
-- server/mcp_server.py: the tools and resources that only look.
use account_pool.Base.{ℕ, String, ◌≡◌, Bool, true, false, Option, none, some, List, [], arith}
use account_pool.Domain.Json.{Fields}
use account_pool.Domain.Models.{Account, Persona}
use account_pool.Runtime.Errors.{Error}
use account_pool.Runtime.World.{Env, World}
use account_pool.Runtime.Monad.{Prog, pure, or_raise, ◌>>=◌}
use account_pool.Db.Accounts.{list_accounts, get_connection}
use account_pool.Db.Records.{get_approval}
use account_pool.Db.Audit.{query_events}
use account_pool.Approvals.{list_open}
use account_pool.Adapters.Net.{Network}
use account_pool.Locking.{require_account}
use account_pool.Actions.Context.{given}
use account_pool.Actions.Submit.{validate}
use account_pool.Base.Int.{ℤ}
use account_pool.Server.Views.{Payload, summary_list, count_accounts, item_view, each_view}
use account_pool.Server.Rest.{listed, no_accounts}
use account_pool.Server.Tools.{Tool, Question, normalize_agent}
use account_pool.Server.Mcp.{run_tool, fleet_overview, connection_of, approval_of_id, explained}
use account_pool.Server.Looking.{
  require-Harmless, summary_list-Harmless, count_accounts-Harmless, views-Harmless,
  list_open-Harmless, validate-Harmless,
}
use account_pool.Accounts.Status.{parse_platform, parse_status}
use account_pool.Domain.Enums.{Platform, LifecycleState}
use account_pool.Server.Inspection.{Harmless, Harmless-refl, IsHarmless, quiet, after}

-- The tools and the resources without an effect.
unfoldable pub is_inspection : Tool → Bool
is_inspection (Tool.account_list platform status pool tag) = true
is_inspection (Tool.account_get id) = true
is_inspection (Tool.account_resource id) = true
is_inspection (Tool.account_connection id) = true
is_inspection Tool.account_inventory = true
is_inspection Tool.inventory_resource = true
is_inspection Tool.platforms = true
is_inspection (Tool.action_validate q agent) = true
is_inspection (Tool.policy_explain q agent) = true
is_inspection (Tool.approvals_list platform account_id) = true
is_inspection (Tool.approval_get id) = true
is_inspection Tool.approvals_resource = true
is_inspection (Tool.audit_query account_id action_id verb limit) = true
is_inspection _ = false

module _ (parse_persona : Fields → Option Persona) (parse_time : String → Option ℕ) (net : Network)
    (env : Env) (meanwhile : ℕ → World → World) where
  abbrev wanted : Option String → Prog (Option Platform)
  wanted o = elim o [
    | none ↦ pure none
    | some p ↦ or_raise (parse_platform p) Error.value_error >>= λ q. pure (some q)
  ]

  wanted-Harmless : (o : Option String) → IsHarmless (wanted o)
  wanted-Harmless none = Harmless-refl
  wanted-Harmless (some p) =
      after (or_raise (parse_platform p) Error.value_error) _
        (quiet (or_raise (parse_platform p) Error.value_error) λ w. ground arith) λ q. Harmless-refl

  abbrev with_status :
      Option Platform → Option String → Option String → Option String → Prog (List Account)
  with_status platform s pool tag = elim s [
    | none ↦ list_accounts platform none pool tag
    | some t ↦ elim (parse_status t) [
      | none ↦ pure []
      | some st ↦ list_accounts platform (some st) pool tag
    ]
  ]

  list_accounts-Harmless :
      (platform : Option Platform) (status : Option LifecycleState) (pool tag : Option String)
      → IsHarmless (list_accounts platform status pool tag)
  unfolding list_accounts
  list_accounts-Harmless platform status pool tag = Harmless-refl

  with_status-Harmless :
      (platform : Option Platform) (s pool tag : Option String)
      → IsHarmless (with_status platform s pool tag)
  unfolding list_accounts
  with_status-Harmless platform s pool tag =
      quiet (with_status platform s pool tag) λ w. ground arith

  listed-Harmless :
      (platform status pool tag : Option String)
      → IsHarmless (listed parse_persona net env platform status pool tag)
  unfolding listed
  listed-Harmless platform status pool tag =
      after (wanted (given platform)) _ (wanted-Harmless (given platform)) λ p.
        after (with_status p status pool tag) _ (with_status-Harmless p status pool tag) λ found.
          after (summary_list env found) _ (summary_list-Harmless env found) λ views. Harmless-refl

  overview-Harmless : IsHarmless (fleet_overview parse_persona parse_time net env meanwhile)
  unfolding fleet_overview
  overview-Harmless =
      after (list_accounts none none none none) _ (list_accounts-Harmless none none none none)
        λ accounts.
          after (count_accounts env true accounts no_accounts) _
            (count_accounts-Harmless env true accounts no_accounts)
            λ counts.
              after (list_open env none none) _ (list_open-Harmless env none none)
                λ waiting. Harmless-refl

  shown_connection : Account → Prog Payload
  shown_connection a = elim (given a.connection_id) [
    | none ↦ pure (Payload.connection none)
    | some c ↦ get_connection c >>= λ found. pure (Payload.connection found)
  ]

  shown_connection-quiet : (a : Account) (w : World) → (shown_connection a w).1 ≡ w
  unfolding shown_connection get_connection
  shown_connection-quiet a w = ground arith

  connection_of-Harmless :
      (id : String) → IsHarmless (connection_of parse_persona parse_time net env meanwhile id)
  unfolding connection_of shown_connection
  connection_of-Harmless id =
      after (require_account id) _ (require-Harmless env id)
        λ a. quiet (shown_connection a) (shown_connection-quiet a)

  approval_of_id-Harmless :
      (id : String) → IsHarmless (approval_of_id parse_persona parse_time net env meanwhile id)
  unfolding approval_of_id get_approval
  approval_of_id-Harmless id =
      quiet (approval_of_id parse_persona parse_time net env meanwhile id) λ w. ground arith

  query_events-Harmless :
      (account_id action_id verb : Option String) (limit : ℤ)
      → IsHarmless (query_events account_id action_id verb limit)
  unfolding query_events
  query_events-Harmless account_id action_id verb limit = Harmless-refl

  explained-Harmless :
      (who : String) (q : Question)
      → IsHarmless (explained parse_persona parse_time net env meanwhile who q)
  unfolding explained
  explained-Harmless who q =
      after (validate env who q.account_id q.verb q.draft_id q.target q.react_kind q.lock_token) _
        (validate-Harmless env who q.account_id q.verb q.draft_id q.target q.react_kind
          q.lock_token)
        λ v. Harmless-refl

  -- The tools and the resources that list, get, count, query, validate or explain leave every account,
  -- connection, secret, draft, action, approval and audit event as it was, and the ledger of promotion;
  -- they notify nobody, and the only calls that they make of an adapter are to resolve a target. This
  -- holds also where they raise.
  pub run_tool-Harmless :
      (t : Tool) (w : World)
      → is_inspection t ≡ true
      → Harmless w (run_tool parse_persona parse_time net env meanwhile t w).1
  unfolding run_tool is_inspection
  run_tool-Harmless (Tool.account_list platform status pool tag) w e =
      listed-Harmless platform status pool tag w
  run_tool-Harmless (Tool.account_get id) w e =
      after (require_account id) _ (require-Harmless env id) (λ a. Harmless-refl) w
  run_tool-Harmless (Tool.account_resource id) w e =
      after (require_account id) _ (require-Harmless env id) (λ a. Harmless-refl) w
  run_tool-Harmless (Tool.account_connection id) w e = connection_of-Harmless id w
  run_tool-Harmless Tool.account_inventory w e = overview-Harmless w
  run_tool-Harmless Tool.inventory_resource w e = overview-Harmless w
  run_tool-Harmless Tool.platforms w e = Harmless-refl w
  run_tool-Harmless (Tool.action_validate q agent) w e =
      explained-Harmless (normalize_agent agent) q w
  run_tool-Harmless (Tool.policy_explain q agent) w e =
      explained-Harmless (normalize_agent agent) q w
  run_tool-Harmless (Tool.approvals_list platform id) w e =
      after (list_open env platform id) _ (list_open-Harmless env platform id)
        (λ items.
          after (each_view env (item_view env) items) _ (views-Harmless env items)
            λ views. Harmless-refl)
        w
  run_tool-Harmless (Tool.approval_get id) w e = approval_of_id-Harmless id w
  run_tool-Harmless Tool.approvals_resource w e =
      after (list_open env none none) _ (list_open-Harmless env none none) (λ items. Harmless-refl)
        w
  run_tool-Harmless (Tool.audit_query account_id action_id verb limit) w e =
      after (query_events account_id action_id verb limit) _
        (query_events-Harmless account_id action_id verb limit) (λ found. Harmless-refl) w
  run_tool-Harmless _ w e = absurd (ground arith)
