-- ===== src/Tests/Accounts.antt =====
-- Runs of the account service and of the vault.
use account_pool.Base.{
  Bool-cases, str_eq, inl, inr, ◌≡◌, refl, Option, none, some, List, [], ◌∷◌, arith,
}
use mathlib.Core.Path.{subst}
use account_pool.Table.{find}
use account_pool.Domain.Json.{Fields}
use account_pool.Domain.Enums.{LifecycleState}
use account_pool.Domain.Models.{Account, Persona, default_persona, default_authorization}
use account_pool.Runtime.Errors.{Error, ok, raised}
use account_pool.Runtime.World.{World, AccountRow}
use account_pool.Db.Accounts.{
  account_row, get_account, compare_and_set, write_account, update_account,
}
use account_pool.Db.Audit.{record_event, append_event}
use account_pool.Locking.{require_account}
use account_pool.Vault.{store_at, retrieve, delete_secret}
use account_pool.Vault.Roundtrip.{retrieve-store_at}
use account_pool.Accounts.Service.{note, save, change}
use account_pool.Accounts.Patch.{Update, apply_update, apply_updates, patched, patch}
use account_pool.Accounts.Honesty.{AllHonest, IsHonest}
use account_pool.Accounts.Administration.{Administration, administer, administer-AllHonest}
use account_pool.Accounts.Patching.{Entitled, patch-Entitled, patch_activates}
use account_pool.Tests.Fixtures.{env, account, lease, payload, world}

-- The validation accepts every persona.
abbrev pub no_persona : Fields → Option Persona
no_persona fields = some default_persona

-- The account has a connection now, and an authorization.
abbrev connected : Account
connected = record account { connection_id = some "conn_1" }

abbrev pub pool : World
pool = record world { accounts = (account.account_id, account_row connected) ∷ [] }

connected-IsHonest : IsHonest connected
connected-IsHonest active = (refl, refl)

pub pool-AllHonest : AllHonest pool.accounts
unfolding find
pool-AllHonest = record {
  each = λ id row there. elim (Bool-cases (str_eq account.account_id id)) [
    | inl same ↦
        let this : account_row connected ≡ row = ground arith in
        subst (λ (r : AccountRow). IsHonest r.payload) this connected-IsHonest
    | inr other ↦ absurd (ground arith)
  ];
}

-- Olga revokes the authorization.
administer-AllHonest_example :
    AllHonest
      (administer no_persona env "olga"
        (Administration.revoking account.account_id)
        pool).1.accounts
administer-AllHonest_example =
    administer-AllHonest no_persona env "olga" (Administration.revoking account.account_id) pool
      pool-AllHonest

-- Ann, who holds the lease, pools the account.
abbrev updates : List Update
updates = Update.pool (some "north") ∷ []

abbrev pooled : Account
pooled = record connected { pool = some "north"; record_version = 4; updated_at = env.time 1 }

ann_patches : (patch no_persona env "ann" account.account_id "t1" 3 updates pool).0 ≡ ok pooled
unfolding patch change require_account get_account find patched apply_updates apply_update save
    update_account write_account compare_and_set note record_event append_event
ann_patches = refl

patch-Entitled_example : Entitled no_persona env "ann" account.account_id "t1" 3 updates pool
patch-Entitled_example =
    patch-Entitled no_persona env "ann" account.account_id "t1" 3 updates pool pooled ann_patches

-- An account of nobody's, which Ann has leased.
abbrev orphan : Account
orphan = record account { authorization = default_authorization; status = LifecycleState.draft }

abbrev orphans : World
orphans = record world { accounts = (account.account_id, account_row orphan) ∷ [] }

orphan_stored : find orphan.account_id orphans.accounts ≡ some (account_row orphan)
unfolding find
orphan_stored = refl

patch_activates_example :
    (b : Account) × ((patch no_persona env "ann" orphan.account_id "t1" 3
        (Update.status "active" ∷ [])
        orphans).0
      ≡ ok b)
    × (b.status ≡ LifecycleState.active)
    × (b.connection_id ≡ none)
    × (b.authorization ≡ default_authorization)
patch_activates_example =
    patch_activates no_persona env "ann" "t1" orphan (account_row orphan) lease orphans
      orphan_stored refl refl refl refl

retrieve-store_at_example :
    let u = (store_at env payload "vault_1" world).1 in
    ((retrieve env "vault_1" u).0 ≡ ok payload)
    × ((retrieve env "vault_2" u).0 ≡ (retrieve env "vault_2" world).0)
    × ((retrieve env "vault_1" (delete_secret env "vault_1" u).1).0 ≡ raised Error.key_error)
retrieve-store_at_example =
    retrieve-store_at env payload world "vault_1" "vault_2" (λ key n plain. refl) refl refl
