-- ===== src/Actions/DryRun.antt =====
-- actions/service.py with the adapters of the network: what a dry run asks of the platforms.
use account_pool.Base.{ℕ, String, ◌≡◌, true, Option, List}
use account_pool.Runtime.World.{World, Env}
use account_pool.Adapters.Net.{Network}
use account_pool.Actions.Decide.{decide_approval}
use account_pool.Actions.Submit.{publish, comment, react}
use account_pool.Actions.Silence.{Silent}
use account_pool.Actions.SilentVerbs.{publish-Silent, comment-Silent, react-Silent}
use account_pool.Actions.SilentReview.{decide_approval-Silent}

-- With the dry run set, no platform sees a request from a publication, a comment, a reaction or the
-- decision on an approval, whichever adapters of the network are registered, whatever the platforms
-- would answer, and whether the operation returns or raises.
pub dry_run_stays_quiet :
    (env : Env) (net : Network) (names : List String) (w : World)
    → env.dry_run ≡ true
    → ((caller id token draft : String) (key : Option String) (at : Option ℕ)
        → Silent net names w (publish env caller id token draft key at w).1)
      × ((caller id token raw draft : String) (key : Option String)
          → Silent net names w (comment env caller id token raw draft key w).1)
      × ((caller id token raw kind : String) (key : Option String)
          → Silent net names w (react env caller id token raw kind key w).1)
      × ((id decision by : String) (reason : Option String)
          → Silent net names w (decide_approval env id decision by reason w).1)
dry_run_stays_quiet env net names w dry = (
  λ caller id token draft key at. publish-Silent net names env dry caller id token draft key at w,
  λ caller id token raw draft key. comment-Silent net names env dry caller id token raw draft key w,
  λ caller id token raw kind key. react-Silent net names env dry caller id token raw kind key w,
  λ id decision by reason. decide_approval-Silent net names env dry id decision by reason w,
)
