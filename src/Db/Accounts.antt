-- ===== src/Db/Accounts.antt =====
-- db/repositories.py: `AccountRepository` and `ConnectionRepository`.
use account_pool.Base.{
  ℕ, ◌+◌, String, Bool, true, false, Option, none, some, List, str_eq, ◌==◌, ◌&&◌, any, select, map,
  if◌then◌else◌,
}
use account_pool.Table.{Table, find, put, drop, rows}
use account_pool.Domain.Enums.{Platform, LifecycleState, platform_value}
use account_pool.Domain.Models.{Account, Connection}
use account_pool.Runtime.Errors.{Error, ok, raised}
use account_pool.Runtime.World.{Env, AccountRow}
use account_pool.Runtime.Monad.{Prog, gets, modify, now, ◌>>=◌}

-- The columns of an account's row, which mirror its payload.
abbrev pub account_row : Account → AccountRow
account_row a = record {
  platform = platform_value a.platform;
  status = a.status;
  record_version = a.record_version;
  pool = a.pool;
  payload = a;
}

-- `AccountRepository.add`: the key is unique.
unfoldable pub add_account : Account → Prog Account
add_account a w = elim (find a.account_id w.accounts) [
  | some row ↦ (raised Error.integrity_error, w)
  | none ↦ (ok a, record w { accounts = put a.account_id (account_row a) w.accounts })
]

abbrev pub account_of : Table AccountRow → String → Option Account
account_of t id = elim (find id t) [ none ↦ none | some row ↦ some row.payload ]

-- `AccountRepository.get`
unfoldable pub get_account : String → Prog (Option Account)
get_account id = gets (λ w. account_of w.accounts id)

-- The conditional update of a row: `none` where no row has the key and the version.
unfoldable pub compare_and_set :
    String → ℕ → AccountRow → Table AccountRow → Option (Table AccountRow)
compare_and_set id expected row t = elim (find id t) [
  | none ↦ none
  | some old ↦ if old.record_version == expected then some (put id row t) else none
]

-- What `update` writes: the next version, at a moment.
abbrev pub next_version : Account → ℕ → ℕ → Account
next_version a expected t = record a { record_version = expected + 1; updated_at = t }

-- The statement of `update` and its check of the row count.
unfoldable pub write_account : Account → ℕ → Prog Account
unfolding compare_and_set
write_account a expected w =
    elim (compare_and_set a.account_id expected (account_row a) w.accounts) [
      | some accounts ↦ (ok a, record w { accounts = accounts })
      | none ↦ elim (find a.account_id w.accounts) [
        | none ↦ (raised Error.key_error, w)
        | some row ↦ (raised Error.version_conflict, w)
      ]
    ]

-- `AccountRepository.update`
unfoldable pub update_account : Env → Account → ℕ → Prog Account
unfolding write_account
update_account env a expected = now env >>= λ t. write_account (next_version a expected t) expected

abbrev matches_opt : Option String → Option String → Bool
matches_opt none column = true
matches_opt (some wanted) none = false
matches_opt (some wanted) (some value) = str_eq value wanted

abbrev status_index : LifecycleState → ℕ
status_index LifecycleState.draft = 0
status_index LifecycleState.connected = 1
status_index LifecycleState.active = 2
status_index LifecycleState.suspended = 3
status_index LifecycleState.retired = 4

abbrev matches_status : Option LifecycleState → LifecycleState → Bool
matches_status none s = true
matches_status (some wanted) s = status_index s == status_index wanted

-- `AccountRepository.list`: the columns are compared in the query, the tags afterwards.
unfoldable pub list_accounts :
    Option Platform → Option LifecycleState → Option String → Option String → Prog (List Account)
list_accounts platform status pool tag = gets λ w.
    let found =
      select
        (λ (r : AccountRow).
          matches_opt (elim platform [ none ↦ none | some p ↦ some (platform_value p) ])
            (some r.platform)
          && matches_status status r.status
          && matches_opt pool r.pool)
        (rows w.accounts) in
    select (λ (a : Account). elim tag [ none ↦ true | some t ↦ any (str_eq t) a.tags ])
      (map (λ (r : AccountRow). r.payload) found)

-- `ConnectionRepository.add`
unfoldable pub add_connection : Connection → Prog Connection
add_connection c w = elim (find c.connection_id w.connections) [
  | some row ↦ (raised Error.integrity_error, w)
  | none ↦ (ok c, record w { connections = put c.connection_id c w.connections })
]

-- `ConnectionRepository.get`
unfoldable pub get_connection : String → Prog (Option Connection)
get_connection id = gets (λ w. find id w.connections)

-- `ConnectionRepository.delete`
unfoldable pub delete_connection : String → Prog Unit
delete_connection id = modify (λ w. record w { connections = drop id w.connections })
