-- ===== src/Runtime/Monad.antt =====
-- A method call: it reads and changes the shared state, and returns or raises. What was written
-- before a raise stays written.
use Prim.Native.String.{◌++◌ as append}
use account_pool.Base.{ℕ, ◌+◌, String, Option, none, some, [], ◌∷◌, ◌++◌}
use account_pool.Runtime.Errors.{Error, Result, ok, raised}
use account_pool.Runtime.World.{World, Env}
use account_pool.Domain.Enums.{Platform}
use account_pool.Adapters.Interface.{Adapter, AdapterCall, History}

abbrev pub Prog : Type 0 → Type 0
Prog A = World → Result A × World

module _ {A : Type 0} where
  abbrev pub pure : A → Prog A
  pure a w = (ok a, w)

  abbrev pub raise : Error → Prog A
  raise e w = (raised e, w)

  -- A value that was looked up, or the exception for its absence.
  abbrev pub or_raise : Option A → Error → Prog A
  or_raise none e w = (raised e, w)
  or_raise (some a) e w = (ok a, w)

  abbrev pub gets : (World → A) → Prog A
  gets f w = (ok (f w), w)

module _ {A B : Type 0} where
  -- Goes on after a result.
  abbrev pub proceed : (A → Prog B) → Result A → World → Result B × World
  proceed f (ok a) w = f a w
  proceed f (raised e) w = (raised e, w)

infixl 5 ◌>>=◌ ◌>>◌
abbrev pub ◌>>=◌ : {A B : Type 0} → Prog A → (A → Prog B) → Prog B
◌>>=◌ m f w = let (r, w') = m w in proceed f r w'

abbrev pub ◌>>◌ : {A B : Type 0} → Prog A → Prog B → Prog B
m >> n = m >>= λ _. n

abbrev pub modify : (World → World) → Prog Unit
modify f w = (ok tt, f w)

module _ (env : Env) where
  -- clock.py
  abbrev pub now : Prog ℕ
  now w = (ok (env.time w.ticks), record w { ticks = w.ticks + 1 })

  -- `secrets.token_urlsafe`, `uuid.uuid4().hex`
  abbrev pub draw : Prog String
  draw w = (ok (env.random w.minted), record w { minted = w.minted + 1 })

  -- domain/ids.py: `new_id`
  abbrev pub new_id : String → Prog String
  new_id prefix = draw >>= λ hex. pure (append prefix (append "_" hex))

  -- adapters/registry.py: `AdapterRegistry.get`
  abbrev pub get_adapter : Platform → Prog Adapter
  get_adapter p = or_raise (env.registry p) Error.key_error

-- Makes a call of an adapter: it is recorded, and answered from the history before it.
abbrev pub invoke : {A : Type 0} → AdapterCall → (History → Result A) → Prog A
invoke call answer w = (answer w.calls, record w { calls = w.calls ++ call ∷ [] })
