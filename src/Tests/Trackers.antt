-- ===== src/Tests/Trackers.antt =====
-- Runs of the rate limiter and of the ledger.
use account_pool.Base.{true, false, List, [], ◌∷◌}
use account_pool.Policy.Window.{Request, approvals}
use account_pool.Policy.Ratio.{Write, approvals as approved_posts}

-- Three requests and an approval in a minute, and a request a minute later.
abbrev requests : List Request
requests =
    Request.asked 10 11
    ∷ Request.asked 12 13
    ∷ Request.asked 20 20
    ∷ Request.approved 30
    ∷ Request.asked 60000020 60000030
    ∷ []

abbrev writes : List Write
writes =
    Write.guarded "a" false
    ∷ Write.guarded "a" true
    ∷ Write.guarded "a" false
    ∷ Write.guarded "a" true
    ∷ Write.approved "a" true
    ∷ []
