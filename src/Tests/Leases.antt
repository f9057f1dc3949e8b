-- ===== src/Tests/Leases.antt =====
-- Runs of two agents on one account.
use account_pool.Base.{◌*◌, ◌≡◌, ◌≢◌, eq_iff, refl, none, some, [], ◌∷◌, arith}
use account_pool.Base.Int.{pos}
use account_pool.Table.{Table, find, put}
use account_pool.Domain.Models.{Account, add_seconds}
use account_pool.Runtime.Errors.{ok}
use account_pool.Runtime.World.{AccountRow}
use account_pool.Db.Accounts.{
  account_row, account_of, get_account, next_version, compare_and_set, write_account,
  update_account,
}
use account_pool.Policy.RateLimit.{update}
use account_pool.Locking.{
  require_account, held_by_other, with_lock, prepare_checkout, prepare_refresh, prepare_checkin,
  checkin, save_lock, ttl_or,
}
use account_pool.Locking.Interleaving.{Plan, Pending, Shared, Step, Reach, IsValid}
use account_pool.Locking.Exclusion.{write_is_atomic, lease_is_protected}
use account_pool.Locking.Refinement.{prepare_checkout-Plan, prepare_refresh-Plan}
use account_pool.Locking.Release.{Released, checkin-Released}
use account_pool.Tests.Fixtures.{env, account, world-KeyedRows, lease, world, second}

abbrev start : Shared
start = record { clock = second * 1000; accounts = world.accounts; pending = λ agent. none }

start-IsValid : IsValid account.account_id start
unfolding find
start-IsValid = record {
  stored = λ row there. ground arith;
  fresh = λ agent p row mine there. absurd (ground arith);
}

-- Bob tags the account that Ann has leased.
abbrev tagged : Account
tagged = record account { tags = "new" ∷ [] }

abbrev planned : Pending
planned = record { snapshot = account; at = second * 1000; account = tagged }

abbrev after_read : Shared
after_read = record start { pending = update "bob" (some planned) start.pending }

bob_reads : Reach account.account_id start after_read
unfolding find
bob_reads =
    Reach.next "bob" Reach.here (Step.read (account_row account) tagged refl (Plan.other refl) refl)

abbrev table_after : Table AccountRow
table_after = (account.account_id, account_row (next_version tagged 3 (second * 1000))) ∷ []

writes :
    compare_and_set account.account_id 3
      (account_row (next_version tagged 3 (second * 1000)))
      world.accounts
    ≡ some table_after
unfolding compare_and_set find put
writes = refl

write_is_atomic_example :
    (row : AccountRow) × (find account.account_id world.accounts ≡ some row)
    × (row.payload ≡ account)
    × Plan row.payload "bob" (second * 1000) tagged
    × (find account.account_id table_after
        ≡ some (account_row (next_version tagged row.record_version (second * 1000))))
write_is_atomic_example =
    write_is_atomic account.account_id start-IsValid bob_reads "bob" planned table_after refl writes

there : find account.account_id world.accounts ≡ some (account_row account)
unfolding find
there = refl

ann_is_not_bob : lease.holder ≢ "bob"
ann_is_not_bob e = absurd (ground (arith, (eq_iff lease.holder "bob").1 e))

lease_is_protected_example :
    (row : AccountRow) × (find account.account_id table_after ≡ some row)
    × (row.payload.lock ≡ some lease)
lease_is_protected_example =
    lease_is_protected account.account_id start-IsValid bob_reads "bob" (account_row account) lease
      (Step.write planned table_after refl writes refl) there refl ann_is_not_bob (omega arith)

-- Ann renews her own lease by a checkout.
abbrev renewed : Account
renewed = with_lock account (
    some (record {
      holder = "ann";
      token = env.random 0;
      acquired_at = env.time 0;
      expires_at = second * 1900;
    }))

ann_prepares : (prepare_checkout env account.account_id "ann" (pos 900) world).0 ≡ ok (renewed, 3)
unfolding prepare_checkout require_account get_account find held_by_other add_seconds
ann_prepares = refl

prepare_checkout-Plan_example :
    (snap : Account) × (account_of world.accounts account.account_id ≡ some snap)
    × (3 ≡ snap.record_version)
    × Plan snap "ann" (env.time 0) renewed
prepare_checkout-Plan_example =
    prepare_checkout-Plan env account.account_id "ann" (pos 900) world renewed 3 ann_prepares

-- Or by a refresh, whose second reading of the clock counts.
abbrev refreshed : Account
refreshed = with_lock account (
    some (record {
      holder = "ann";
      token = "t1";
      acquired_at = second * 900;
      expires_at = second * 1901;
    }))

ann_refreshes : (prepare_refresh env account.account_id "ann" "t1" none world).0 ≡ ok (refreshed, 3)
unfolding prepare_refresh require_account get_account find add_seconds ttl_or
ann_refreshes = refl

prepare_refresh-Plan_example :
    (snap : Account) × (account_of world.accounts account.account_id ≡ some snap)
    × (3 ≡ snap.record_version)
    × Plan snap "ann" (env.time 0) refreshed
prepare_refresh-Plan_example =
    prepare_refresh-Plan env account.account_id "ann" "t1" none world refreshed 3 ann_refreshes

ann_returns :
    (checkin env account.account_id "ann" "t1" world).0
    ≡ ok (next_version (with_lock account none) 3 (env.time 0))
unfolding checkin save_lock prepare_checkin require_account get_account find update_account
    write_account compare_and_set
ann_returns = refl

checkin-Released_example :
    Released env account.account_id "ann" "t1" world
      (checkin env account.account_id "ann" "t1" world).1
      (next_version (with_lock account none) 3 (env.time 0))
checkin-Released_example =
    checkin-Released env account.account_id "ann" "t1" world
      (next_version (with_lock account none) 3 (env.time 0)) world-KeyedRows ann_returns
