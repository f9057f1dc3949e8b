-- ===== src/Runtime/World.antt =====
-- The state that the services share (app.py wires them to one database and one set of trackers),
-- and the surroundings that they run in.
use account_pool.Base.{ℕ, String, Bool, Option, List}
use account_pool.Base.Int.{ℤ}
use account_pool.Table.{Table}
use account_pool.Domain.Json.{Fields}
use account_pool.Domain.Enums.{Platform, LifecycleState, ReviewState}
use account_pool.Domain.Models.{Account, Connection, ContentDraft, Action, ApprovalItem, AuditEvent}
use account_pool.Adapters.Interface.{Adapter, AdapterCall}

-- db/tables.py: the columns that a query reads, and the payload. The primary key is the table's.
pub record AccountRow : Type 0 where
  pub platform : String
  pub status : LifecycleState
  pub record_version : ℕ
  pub pool : Option String
  pub payload : Account

pub record ActionRow : Type 0 where
  pub idempotency_key : Option String
  pub payload : Action

pub record ApprovalRow : Type 0 where
  pub review_state : ReviewState
  pub updated_at : ℕ
  pub payload : ApprovalItem

-- policy/ratelimit.py: the moments of the counted actions, by key.
pub record RateLimiter : Type 0 where
  pub events : String → List ℕ

-- policy/trackers.py: the hits on a target, by key, each an account and a moment.
pub record CoordinationTracker : Type 0 where
  pub hits : String → List (String × ℕ)

-- policy/trackers.py: promotional and other writes, by account.
pub record SelfPromoLedger : Type 0 where
  pub promo : String → ℕ
  pub non_promo : String → ℕ

-- vault/vault.py: a row of the vault.
pub record SecretRow : Type 0 where
  pub wrapped_key : String
  pub ciphertext : String
  pub created_at : ℕ
  pub updated_at : ℕ

-- The `cryptography` package: Fernet keys and tokens, with what it draws at random as a number; and
-- what the `json` module makes of a dict. `none` stands for an exception.
pub record Cipher : Type 0 where
  pub generate_key : ℕ → String
  pub encrypt : String → ℕ → String → String
  pub decrypt : String → String → Option String
  pub dumps : Fields → String
  pub loads : String → Option Fields
  pub master_key : String

pub record World : Type 0 where
  -- readings of the clock, and identifiers drawn, so far
  pub ticks : ℕ
  pub minted : ℕ
  pub accounts : Table AccountRow
  pub connections : Table Connection
  pub secrets : Table SecretRow
  pub drafts : Table ContentDraft
  pub actions : Table ActionRow
  pub approvals : Table ApprovalRow
  pub audit : List AuditEvent
  pub rate : RateLimiter
  pub coordination : CoordinationTracker
  pub promo_ledger : SelfPromoLedger
  -- the calls made of the adapters and of the notifier, the last one at the end
  pub calls : List AdapterCall
  pub notified : List (ApprovalItem × Account)

-- What the program does not decide: the clock, by the number of the reading; random identifiers,
-- by the number of the draw; the registered adapters; the
-- cipher of the vault and its master key; the settings;
-- the module-level set of policy/platform_rules.py, empty unless an operator fills it.
pub record Env : Type 0 where
  pub time : ℕ → ℕ
  pub random : ℕ → String
  pub registry : Platform → Option Adapter
  pub cipher : Cipher
  pub dry_run : Bool
  pub default_lock_ttl : ℤ
  pub approval_ttl : ℤ
  pub has_notifier : Bool
  pub blocked_containers : List String
