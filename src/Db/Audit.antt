-- ===== src/Db/Audit.antt =====
-- audit/log.py and `AuditRepository`. The log is the list of its events in the order of writing;
-- the key of an event is a fresh uuid, so that an append does not fail.
use Prim.Native.String.{◌++◌ as append}
use account_pool.Base.{
  ℕ, zero, suc, ◌≡◌, refl, String, Bool, true, false, ◌&&◌, Option, none, some, List, [], ◌∷◌, ◌++◌,
  leb, str_eq, select, if◌then◌else◌,
}
use account_pool.Base.Int.{ℤ, pos, negsuc}
use account_pool.Domain.Enums.{DecisionOutcome, DenialCode}
use account_pool.Domain.Models.{DecisionStep, PlatformResult, AuditEvent}
use account_pool.Runtime.Errors.{Result, ok}
use account_pool.Runtime.World.{World, Env}
use account_pool.Runtime.Monad.{Prog, gets, now, new_id, ◌>>=◌}

-- What a caller of `record` says of an event.
pub record Entry : Type 0 where
  pub actor : String
  pub verb : String
  pub outcome : DecisionOutcome
  pub account_id : Option String
  pub action_id : Option String
  pub denial_code : Option DenialCode
  pub platform_result : Option PlatformResult
  pub policy_snapshot : Option (List DecisionStep)

-- `AuditRepository.append`
unfoldable pub append_event : AuditEvent → Prog AuditEvent
append_event e w = (ok e, record w { audit = w.audit ++ e ∷ [] })

abbrev pub event_of : String → ℕ → Entry → AuditEvent
event_of event_id ts e = record {
  event_id = event_id;
  ts = ts;
  actor = e.actor;
  verb = e.verb;
  outcome = e.outcome;
  account_id = e.account_id;
  action_id = e.action_id;
  denial_code = e.denial_code;
  platform_result = e.platform_result;
  policy_snapshot = e.policy_snapshot;
}

-- `AuditLogger.record`
unfoldable pub record_event : Env → Entry → Prog AuditEvent
unfolding append_event
record_event env e = do
  event_id ← new_id env "evt"
  ts ← now env
  append_event (event_of event_id ts e)

-- What a caller of `record` can count on.
pub record Recorded (e : Entry) (w : World) (m : Result AuditEvent × World) : Type 0 where
  pub event : AuditEvent
  pub returned : m.0 ≡ ok event
  pub appended : m.1.audit ≡ w.audit ++ event ∷ []
  pub outcome : event.outcome ≡ e.outcome
  pub action_id : event.action_id ≡ e.action_id
  pub denial_code : event.denial_code ≡ e.denial_code
  pub account_id : event.account_id ≡ e.account_id
  pub calls : m.1.calls ≡ w.calls
  pub actions : m.1.actions ≡ w.actions

pub record_event-Recorded :
    (env : Env) (e : Entry) (w : World) → Recorded e w (record_event env e w)
unfolding record_event append_event
record_event-Recorded env e w = record {
  event = event_of (append "evt" (append "_" (env.random w.minted))) (env.time w.ticks) e;
  returned = refl;
  appended = refl;
  outcome = refl;
  action_id = refl;
  denial_code = refl;
  account_id = refl;
  calls = refl;
  actions = refl;
}

-- An earlier event takes its place before later ones of the same moment.
unfoldable pub insert_newest : AuditEvent → List AuditEvent → List AuditEvent
insert_newest e [] = e ∷ []
insert_newest e (f ∷ rest) = if leb f.ts e.ts then e ∷ f ∷ rest else f ∷ insert_newest e rest

-- `order_by(AuditRow.ts.desc())`, which leaves events of one moment in the order of writing
unfoldable pub newest_first : List AuditEvent → List AuditEvent
unfolding insert_newest
newest_first [] = []
newest_first (e ∷ rest) = insert_newest e (newest_first rest)

abbrev pub column_is : Option String → Option String → Bool
column_is none column = true
column_is (some wanted) none = false
column_is (some wanted) (some value) = str_eq value wanted

-- The conditions of a query.
abbrev pub asked_for : Option String → Option String → Option String → AuditEvent → Bool
asked_for account_id action_id verb e =
    column_is account_id e.account_id
    && column_is action_id e.action_id
    && column_is verb (some e.verb)

abbrev pub first_events : ℕ → List AuditEvent → List AuditEvent
first_events zero events = []
first_events (suc n) [] = []
first_events (suc n) (e ∷ rest) = e ∷ first_events n rest

-- `LIMIT n`, where a negative number is none
unfoldable pub limited : ℤ → List AuditEvent → List AuditEvent
limited (negsuc n) events = events
limited (pos n) events = first_events n events

-- `AuditRepository.query`, and `AuditLogger.query`
unfoldable pub query_events :
    Option String → Option String → Option String → ℤ → Prog (List AuditEvent)
unfolding newest_first limited
query_events account_id action_id verb limit =
    gets λ w. limited limit (newest_first (select (asked_for account_id action_id verb) w.audit))
