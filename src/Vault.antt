-- ===== src/Vault.antt =====
-- vault/vault.py and vault/provider.py: `EncryptedVault` and `BuiltinConnectionProvider`. What the
-- cipher draws at random is taken from the same source as identifiers. The proofs are in
-- Vault/Roundtrip.
pub mod Roundtrip
use account_pool.Base.{
  ℕ, ◌+◌, String, Bool, Option, none, some, List, [], or_else, str_eq, if◌then◌else◌, is_some,
}
use account_pool.Table.{Table, find, put, drop}
use account_pool.Domain.Json.{Fields}
use account_pool.Domain.Enums.{Platform, AuthType, ConnectionProviderKind}
use account_pool.Domain.Models.{Connection}
use account_pool.Runtime.Errors.{Error, Result, ok, raised}
use account_pool.Runtime.World.{World, Env, SecretRow, Cipher}
use account_pool.Runtime.Monad.{Prog, pure, gets, modify, now, new_id, ◌>>=◌, ◌>>◌}

-- The row that `store` writes: an old row keeps the moment of its creation.
abbrev pub secret_row : String → String → ℕ → Option SecretRow → SecretRow
secret_row wrapped ciphertext t none = record {
  wrapped_key = wrapped;
  ciphertext = ciphertext;
  created_at = t;
  updated_at = t;
}
secret_row wrapped ciphertext t (some old) = record old {
  wrapped_key = wrapped;
  ciphertext = ciphertext;
  updated_at = t;
}

-- The two decryptions and the parse of `retrieve`.
unfoldable pub open_secret : Cipher → SecretRow → Result Fields
open_secret c row = elim (c.decrypt c.master_key row.wrapped_key) [
  | none ↦ raised Error.value_error
  | some key ↦ elim (c.decrypt key row.ciphertext) [
    | none ↦ raised Error.value_error
    | some plain ↦ elim (c.loads plain) [ none ↦ raised Error.value_error | some p ↦ ok p ]
  ]
]

-- `retrieve`, of a table of secrets
unfoldable pub retrieve_from : Cipher → String → Table SecretRow → Result Fields
unfolding open_secret
retrieve_from c ref t = elim (find ref t) [
  | none ↦ raised Error.key_error
  | some row ↦ open_secret c row
]

module _ (env : Env) where
  -- `EncryptedVault.store` under a reference
  unfoldable pub store_at : Fields → String → Prog String
  store_at payload ref w =
      let n = w.minted in
      let key = env.cipher.generate_key n in
      let ciphertext = env.cipher.encrypt key (n + 1) (env.cipher.dumps payload) in
      let wrapped = env.cipher.encrypt env.cipher.master_key (n + 2) key in
      (
        ok ref,
        record w {
          minted = n + 3;
          ticks = w.ticks + 1;
          secrets =
              put ref (secret_row wrapped ciphertext (env.time w.ticks) (find ref w.secrets))
                w.secrets;
        },
      )

  -- `EncryptedVault.store` under a new reference
  unfoldable pub store : Fields → Prog String
  unfolding store_at
  store payload = new_id env "vault" >>= λ ref. store_at payload ref

  -- `EncryptedVault.store` with a reference, which counts only if it is not empty
  unfoldable pub store_under : Fields → String → Prog String
  unfolding store
  store_under payload ref = if str_eq ref "" then store payload else store_at payload ref

  -- `EncryptedVault.retrieve`
  unfoldable pub retrieve : String → Prog Fields
  unfolding retrieve_from
  retrieve ref w = (retrieve_from env.cipher ref w.secrets, w)

  -- `EncryptedVault.delete`
  unfoldable pub delete_secret : String → Prog Unit
  delete_secret ref = modify (λ w. record w { secrets = drop ref w.secrets })

  -- `BuiltinConnectionProvider.store_credentials`
  unfoldable pub store_credentials :
      String → Platform → AuthType → Fields → Option (List String) → Prog Connection
  unfolding store
  store_credentials account_id platform auth_type payload scopes = do
    secret_ref ← store payload
    connection_id ← new_id env "conn"
    created_at ← now env
    updated_at ← now env
    pure (record {
      connection_id = connection_id;
      account_id = account_id;
      platform = platform;
      auth_type = auth_type;
      provider = ConnectionProviderKind.builtin;
      scopes = or_else scopes [];
      secret_ref = secret_ref;
      expires_at = none;
      refresh_ref = none;
      created_at = created_at;
      updated_at = updated_at;
    })

  -- `BuiltinConnectionProvider.load_credentials`, where any exception counts as no credentials
  unfoldable pub load_or_none : Connection → World → Option Fields
  unfolding retrieve_from
  load_or_none conn w = elim (retrieve_from env.cipher conn.secret_ref w.secrets) [
    | ok payload ↦ some payload
    | raised e ↦ none
  ]
