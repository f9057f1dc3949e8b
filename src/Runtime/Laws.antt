-- ===== src/Runtime/Laws.antt =====
-- What a composed call that returns says of its parts.
use account_pool.Base.{◌≡◌, refl, arith}
use account_pool.Runtime.Errors.{Result, ok, raised}
use account_pool.Runtime.World.{World}
use account_pool.Runtime.Monad.{Prog, proceed}

-- It has gone through its first part.
pub proceed-eq_ok :
    {A B : Type 0} (f : A → Prog B) (m : Result A × World) (b : B)
    → (proceed f m.0 m.1).0 ≡ ok b
    → (a : A) × (m.0 ≡ ok a) × ((f a m.1).0 ≡ ok b)
proceed-eq_ok f (raised e, u) b returned = absurd (ground arith)
proceed-eq_ok f (ok a, u) b returned = (a, refl, returned)
