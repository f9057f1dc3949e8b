-- ===== src/Tests/Requests.antt =====
-- Requests to the administration, a query of the audit log and a dry run.
use account_pool.Base.{ℕ, String, ◌≡◌, ◌↔◌, refl, true, false, Option, none, some, List, [], ◌∷◌}
use account_pool.Base.Int.{pos}
use account_pool.Domain.Json.{end}
use account_pool.Domain.Enums.{DecisionOutcome}
use account_pool.Domain.Models.{AuditEvent}
use account_pool.Runtime.Errors.{ok}
use account_pool.Runtime.World.{World, Env}
use account_pool.Adapters.Replay.{as_adapter}
use account_pool.Adapters.Registry.{fleet}
use account_pool.Adapters.Mastodon.{mastodon_adapter}
use account_pool.Actions.Submit.{publish, comment, react}
use account_pool.Actions.Decide.{decide_approval}
use account_pool.Actions.Silence.{Silent}
use account_pool.Actions.DryRun.{dry_run_stays_quiet}
use account_pool.Db.Audit.{query_events}
use account_pool.Db.Queries.{Answers, query_events-newest}
use account_pool.Accounts.Honesty.{AllHonest}
use account_pool.Server.Routes.{Route, Surface, is_open}
use account_pool.Server.Answers.{serve}
use account_pool.Server.Access.{IsStranger, serve-unauthorized_iff}
use account_pool.Server.Lifecycle.{is_lifecycle, serve-AllHonest}
use account_pool.Server.Tools.{Tool}
use account_pool.Server.Mcp.{run_tool}
use account_pool.Server.Inspection.{Harmless}
use account_pool.Server.Harmless.{is_inspection, run_tool-Harmless}
use account_pool.Tests.Fixtures.{env, account, world}
use account_pool.Tests.Accounts.{no_persona, pool, pool-AllHonest}
use account_pool.Tests.Networks.{silence}

abbrev names : List String
names = "mastodon" ∷ []

-- The dry run is set, and the adapter of the network is in use.
abbrev rehearsal : Env
rehearsal = record env {
  dry_run = true;
  registry = λ p. some (as_adapter (fleet silence names) (mastodon_adapter silence));
}

dry_run_stays_quiet_example :
    ((caller id token draft : String) (key : Option String) (at : Option ℕ)
      → Silent silence names world (publish rehearsal caller id token draft key at world).1)
    × ((caller id token raw draft : String) (key : Option String)
        → Silent silence names world (comment rehearsal caller id token raw draft key world).1)
    × ((caller id token raw kind : String) (key : Option String)
        → Silent silence names world (react rehearsal caller id token raw kind key world).1)
    × ((id decision by : String) (reason : Option String)
        → Silent silence names world (decide_approval rehearsal id decision by reason world).1)
dry_run_stays_quiet_example = dry_run_stays_quiet rehearsal silence names world refl

-- Two events of Ann's, the later one second.
abbrev event : String → ℕ → AuditEvent
event id ts = record {
  event_id = id;
  ts = ts;
  actor = "ann";
  verb = "publish";
  outcome = DecisionOutcome.allow;
  account_id = some account.account_id;
  action_id = none;
  denial_code = none;
  platform_result = none;
  policy_snapshot = none;
}

abbrev audited : World
audited = record world { audit = event "e1" 10 ∷ event "e2" 20 ∷ [] }

query_events-newest_example :
    (found : List AuditEvent) × (query_events none none (some "publish") (pos 1) audited
      ≡ (ok found, audited))
    × Answers none none (some "publish") 1 audited.audit found
query_events-newest_example = query_events-newest none none (some "publish") 1 audited

-- Nobody is let in without the token.
abbrev surface : Surface
surface = record { bearer = some "hush"; is_prod = true }

abbrev retirement : Route
retirement = Route.retire account.account_id end

abbrev meanwhile : ℕ → World → World
meanwhile n w = w

serve-unauthorized_iff_example :
    let (reply, after) =
      serve no_persona silence env meanwhile surface (some "hush") retirement pool in
    (reply.code ≡ 401 ↔ (is_open retirement ≡ false) × (IsStranger surface (some "hush")))
    × ((reply.code ≡ 401) × (after ≡ pool)
        ↔ (is_open retirement ≡ false) × (IsStranger surface (some "hush")))
serve-unauthorized_iff_example =
    serve-unauthorized_iff no_persona silence env meanwhile surface (some "hush") retirement pool

-- With it, an account is retired.
retires : is_lifecycle retirement ≡ true
unfolding is_lifecycle
retires = refl

serve-AllHonest_example :
    AllHonest
      (serve no_persona silence env meanwhile surface
        (some "Bearer hush")
        retirement
        pool).1.accounts
serve-AllHonest_example =
    serve-AllHonest no_persona silence env meanwhile surface (some "Bearer hush") retirement pool
      retires pool-AllHonest

-- Ann asks whether she may publish the draft.
abbrev question : Tool
question =
    Tool.action_validate
      (record {
        account_id = account.account_id;
        verb = "publish";
        draft_id = some "d1";
        target = some "https://example.org/1";
        react_kind = none;
        lock_token = some "t1";
      })
      " ann "

inspects : is_inspection question ≡ true
unfolding is_inspection
inspects = refl

abbrev no_time : String → Option ℕ
no_time s = none

run_tool-Harmless_example :
    Harmless world (run_tool no_persona no_time silence env meanwhile question world).1
run_tool-Harmless_example =
    run_tool-Harmless no_persona no_time silence env meanwhile question world inspects
