-- ===== src/Accounts/Administration.antt =====
-- accounts/service.py: the administrative operations, all but `patch`, and any sequence of them.
use account_pool.Base.{String, ◌≡◌, refl, Option, List, arith, ◌∙◌}
use account_pool.Domain.Json.{Fields}
use account_pool.Domain.Models.{Account, Persona}
use account_pool.Runtime.Errors.{Result, ok, raised}
use account_pool.Runtime.World.{World, Env}
use account_pool.Runtime.Monad.{Prog, proceed, ◌>>=◌}
use account_pool.Db.Accounts.{add_connection, get_connection, delete_connection}
use account_pool.Vault.{store_at, store, store_under, store_credentials, delete_secret}
use account_pool.Actions.Context.{load_session}
use account_pool.Accounts.Status.{recompute_status}
use account_pool.Accounts.Identity.{mint_account_id}
use account_pool.Accounts.Service.{
  fresh_account, enter, authenticated, complied, fresh_account, enter, register, fresh_account,
  enter, authorized, authorize, revoked, revoke_authorization, link, introduce, connect, restore,
  refreshed, refresh_credentials, checked, health_check, retired, retire, forget, disconnected,
  disconnect,
}
use account_pool.Accounts.Honesty.{
  Keeps, Keeps-same, Keeps-then, enter-Keeps, IsHonest, AllHonest, MakesHonest, change-Keeps,
}

-- An operation with its arguments.
pub data Administration : Type 0 where
  registering :
      String
      → String
      → Option String
      → Option Fields
      → Option String
      → Option (List String)
      → Administration
  authorizing : String → String → List String → Option String → Option String → Administration
  connecting : String → String → Fields → Option (List String) → Option String → Administration
  revoking refreshing checking retiring disconnecting : String → Administration

module _ (parse_persona : Fields → Option Persona) (env : Env) where
  abbrev pub administer : String → Administration → Prog Account
  administer caller (Administration.registering platform handle name persona pool tags) =
      register env caller parse_persona platform handle name persona pool tags
  administer caller (Administration.authorizing id owner scopes evidence attested) =
      authorize env caller id owner scopes evidence attested
  administer caller (Administration.revoking id) = revoke_authorization env caller id
  administer caller (Administration.connecting id kind credentials scopes provider) =
      connect env caller id kind credentials scopes provider
  administer caller (Administration.refreshing id) = refresh_credentials env caller id
  administer caller (Administration.checking id) = health_check env caller id
  administer caller (Administration.retiring id) = retire env caller id
  administer caller (Administration.disconnecting id) = disconnect env caller id

module _ (env : Env) (caller verb id : String) where
  authorized-MakesHonest :
      (owner : String) (scopes : List String) (evidence attested : Option String)
      → MakesHonest env caller verb id (authorized env caller owner scopes evidence attested)
  unfolding authorized recompute_status
  authorized-MakesHonest owner scopes evidence attested a w =
      (ground arith, λ b made old active. ground arith)

  revoked-MakesHonest : MakesHonest env caller verb id (revoked env caller)
  unfolding revoked
  revoked-MakesHonest a w = (refl, λ b made old active. absurd (ground arith))

  retired-MakesHonest : MakesHonest env caller verb id (retired env caller)
  retired-MakesHonest a w = (refl, λ b made old active. absurd (ground arith))

  checked-MakesHonest : MakesHonest env caller verb id (checked env caller)
  unfolding checked load_session get_connection
  checked-MakesHonest a w = (ground arith, λ b made old active. ground arith)

  refreshed-MakesHonest : MakesHonest env caller verb id (refreshed env caller)
  unfolding refreshed load_session get_connection restore store_under store store_at
  refreshed-MakesHonest a w = (ground arith, λ b made old active. ground arith)

  disconnected-MakesHonest : MakesHonest env caller verb id (disconnected env caller)
  unfolding disconnected recompute_status forget get_connection delete_secret delete_connection
  disconnected-MakesHonest a w = (ground arith, λ b made old active. ground arith)

  introduce-quiet :
      (credentials : Fields) (a : Account) (w : World)
      → (introduce env caller credentials a w).1.accounts ≡ w.accounts
  unfolding introduce
  introduce-quiet credentials a w = ground arith

  introduce-IsHonest :
      (credentials : Fields) (a b : Account) (w : World)
      → (introduce env caller credentials a w).0 ≡ ok b
      → IsHonest b
  unfolding introduce authenticated complied recompute_status
  introduce-IsHonest credentials a b w made active = ground arith

  link-quiet :
      (kind : String) (credentials : Fields) (scopes : Option (List String))
      (provider : Option String) (a : Account) (w : World)
      → (link env caller kind credentials scopes provider a w).1.accounts ≡ w.accounts
  unfolding link store_credentials store store_at add_connection
  link-quiet kind credentials scopes provider a w = ground arith

  linked_up : String → Fields → Option (List String) → Option String → Account → Prog Account
  linked_up kind credentials scopes provider account =
      link env caller kind credentials scopes provider account >>= introduce env caller credentials

  after_link :
      (credentials : Fields) (w : World) (m : Result Account × World)
      → m.1.accounts ≡ w.accounts
      → ((proceed (introduce env caller credentials) m.0 m.1).1.accounts ≡ w.accounts)
        × ((b : Account)
            → (proceed (introduce env caller credentials) m.0 m.1).0 ≡ ok b
            → IsHonest b)
  after_link credentials w (raised e, u) same = (same, λ b made active. absurd (ground arith))
  after_link credentials w (ok a, u) same =
      (introduce-quiet credentials a u ∙ same, λ b made. introduce-IsHonest credentials a b u made)

  linked_up-MakesHonest :
      (kind : String) (credentials : Fields) (scopes : Option (List String))
      (provider : Option String)
      → MakesHonest env caller verb id (linked_up kind credentials scopes provider)
  unfolding linked_up
  linked_up-MakesHonest kind credentials scopes provider a w =
      let (quiet, honest) =
        after_link credentials w (link env caller kind credentials scopes provider a w)
          (link-quiet kind credentials scopes provider a w) in
      (quiet, λ b made old. honest b made)

module _ (parse_persona : Fields → Option Persona) (env : Env) (caller : String)
    (platform handle : String) (name : Option String) (persona : Option Fields)
    (pool : Option String) (tags : Option (List String)) where
  fresh : Prog Account
  fresh = fresh_account env caller parse_persona platform handle name persona pool tags

  fresh-quiet : (w : World) → (fresh w).1.accounts ≡ w.accounts
  unfolding fresh fresh_account mint_account_id
  fresh-quiet w = ground arith

  fresh-IsHonest : (w : World) (a : Account) → (fresh w).0 ≡ ok a → IsHonest a
  unfolding fresh fresh_account mint_account_id
  fresh-IsHonest w a made active = absurd (ground arith)

  register-Keeps :
      (w : World)
      → Keeps w (register env caller parse_persona platform handle name persona pool tags w).1
  unfolding register fresh
  register-Keeps w =
      Keeps-then w (fresh w) (enter env caller) (Keeps-same w (fresh w).1 (fresh-quiet w))
        λ a made. enter-Keeps env caller a (fresh w).1 (fresh-IsHonest w a made)

module _ (parse_persona : Fields → Option Persona) (env : Env) (caller : String) where
  -- From a pool in which every active account has a connection and an authorization in force, any one
  -- administrative operation but a patch leads to such a pool, whether it returns or raises.
  pub administer-AllHonest :
      (op : Administration) (w : World)
      → AllHonest w.accounts
      → AllHonest (administer parse_persona env caller op w).1.accounts
  unfolding authorize revoke_authorization connect refresh_credentials health_check retire
      disconnect linked_up
  administer-AllHonest (Administration.registering platform handle name persona pool tags) w all =
      register-Keeps parse_persona env caller platform handle name persona pool tags w all
  administer-AllHonest (Administration.authorizing id owner scopes evidence attested) w all =
      change-Keeps env caller "account_authorize" id
        (authorized env caller owner scopes evidence attested) w
        (authorized-MakesHonest env caller "account_authorize" id owner scopes evidence attested)
        all
  administer-AllHonest (Administration.revoking id) w all =
      change-Keeps env caller "account_revoke" id (revoked env caller) w
        (revoked-MakesHonest env caller "account_revoke" id) all
  administer-AllHonest (Administration.connecting id kind credentials scopes provider) w all =
      change-Keeps env caller "account_connect" id
        (linked_up env caller "account_connect" id kind credentials scopes provider) w
        (linked_up-MakesHonest env caller "account_connect" id kind credentials scopes provider) all
  administer-AllHonest (Administration.refreshing id) w all =
      change-Keeps env caller "account_refresh_credentials" id (refreshed env caller) w
        (refreshed-MakesHonest env caller "account_refresh_credentials" id) all
  administer-AllHonest (Administration.checking id) w all =
      change-Keeps env caller "account_health_check" id (checked env caller) w
        (checked-MakesHonest env caller "account_health_check" id) all
  administer-AllHonest (Administration.retiring id) w all =
      change-Keeps env caller "account_retire" id (retired env caller) w
        (retired-MakesHonest env caller "account_retire" id) all
  administer-AllHonest (Administration.disconnecting id) w all =
      change-Keeps env caller "account_disconnect" id (disconnected env caller) w
        (disconnected-MakesHonest env caller "account_disconnect" id) all
