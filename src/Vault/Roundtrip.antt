-- ===== src/Vault/Roundtrip.antt =====
-- vault/vault.py: what is stored is what is loaded, over a cipher that decrypts what it encrypts.
use account_pool.Base.{ℕ, ◌+◌, String, ◌≡◌, refl, false, some, arith, ap, ◌∙◌, str_eq, eq_refl}
use account_pool.Table.{Table, find, put, drop, find-put_self, find-put_ne, find-drop}
use account_pool.Domain.Json.{Fields}
use account_pool.Runtime.Errors.{Error, ok, raised}
use account_pool.Runtime.World.{World, Env, SecretRow, Cipher}
use account_pool.Vault.{secret_row, open_secret, retrieve_from, store_at, retrieve, delete_secret}

-- What the package documents of Fernet: a token decrypts, under its key, to what was encrypted.
abbrev pub Decrypts : Cipher → Type 0
Decrypts c =
    (key : String) (n : ℕ) (plain : String) → c.decrypt key (c.encrypt key n plain) ≡ some plain

-- `json.loads(json.dumps(payload))` gives a payload back.
abbrev pub Reads : Cipher → Fields → Type 0
Reads c payload = c.loads (c.dumps payload) ≡ some payload

module _ (env : Env) (payload : Fields) where
  -- The row that `store_at` writes.
  abbrev pub sealed : World → String → SecretRow
  sealed w ref =
      let n = w.minted in
      let key = env.cipher.generate_key n in
      secret_row (env.cipher.encrypt env.cipher.master_key (n + 2) key)
        (env.cipher.encrypt key (n + 1) (env.cipher.dumps payload)) (env.time w.ticks)
        (find ref w.secrets)

  open_secret-sealed :
      (w : World) (ref : String)
      → Decrypts env.cipher
      → Reads env.cipher payload
      → open_secret env.cipher (sealed w ref) ≡ ok payload
  unfolding open_secret
  open_secret-sealed w ref decrypts reads =
      let key = env.cipher.generate_key w.minted in
      ground (
        arith,
        decrypts env.cipher.master_key (w.minted + 2) key,
        decrypts key (w.minted + 1) (env.cipher.dumps payload),
        reads,
      )

  retrieve_from-row :
      (t : Table SecretRow) (ref : String) (row : SecretRow)
      → find ref t ≡ some row
      → retrieve_from env.cipher ref t ≡ open_secret env.cipher row
  unfolding retrieve_from
  retrieve_from-row t ref row there = ground arith

  retrieve_from-same :
      (t u : Table SecretRow) (ref : String)
      → find ref t ≡ find ref u
      → retrieve_from env.cipher ref t ≡ retrieve_from env.cipher ref u
  unfolding retrieve_from
  retrieve_from-same t u ref same = ground arith

  secrets-store_at :
      (w : World) (ref : String)
      → (store_at env payload ref w).1.secrets ≡ put ref (sealed w ref) w.secrets
  unfolding store_at
  secrets-store_at w ref = refl

  -- Over a cipher that decrypts what it encrypts, and for a payload that `json` reads back, a secret that was
  -- stored under a reference, new or used before, is retrieved from it; what any other reference
  -- holds is retrieved as before; and once the reference is deleted its retrieval raises.
  pub retrieve-store_at :
      (w : World) (ref other : String)
      → Decrypts env.cipher
      → Reads env.cipher payload
      → str_eq ref other ≡ false
      → let u = (store_at env payload ref w).1 in
        ((retrieve env ref u).0 ≡ ok payload)
        × ((retrieve env other u).0 ≡ (retrieve env other w).0)
        × ((retrieve env ref (delete_secret env ref u).1).0 ≡ raised Error.key_error)
  unfolding retrieve delete_secret
  retrieve-store_at w ref other decrypts reads apart =
      let u = (store_at env payload ref w).1 in
      let same : u.secrets ≡ put ref (sealed w ref) w.secrets = secrets-store_at w ref in
      (
        retrieve_from-row u.secrets ref (sealed w ref)
              (ap (find ref) same ∙ find-put_self ref (sealed w ref) w.secrets)
            ∙ open_secret-sealed w ref decrypts reads,
        retrieve_from-same u.secrets w.secrets other
            (ap (find other) same ∙ find-put_ne ref other (sealed w ref) w.secrets apart),
        deleted u.secrets,
      )
    where
      deleted :
          (t : Table SecretRow) → retrieve_from env.cipher ref (drop ref t) ≡ raised Error.key_error
      deleted t = ground (arith, find-drop ref ref t, eq_refl ref)
