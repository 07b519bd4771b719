-- ===== src/Refresh.antt =====
-- internal/oidc/refresh_store.go: refresh tokens in Valkey, under the hash of the token, with a set
-- of hashes for each family.
pub mod Family
pub mod Reuse
pub mod Rotation
pub mod Steps
pub mod Revoked
use schlass.Base.{
  ℕ, ◌-◌, ◌≡◌, ◌≢◌, Bool, true, false, Option, none, some, List, [], ◌∷◌, ◌++◌, map, String, leb,
  if◌then◌else◌, Result, ok, err,
}
use schlass.Valkey.Keys.{RefreshPayload, Value, refresh_json, Key, refresh_key, family_key}
use schlass.Valkey.Server.{
  Valkey, Reply, found, missing, failed, Command, set, set_keep_ttl, del, sadd, expire,
}

pub data CreateError : Type 0 where
  already_expired entropy create_pipeline : CreateError

-- ErrRefreshUnknownOrExpired, ErrRefreshReuseDetected with the payload, and any other error.
pub data ConsumeError : Type 0 where
  unknown_or_expired : ConsumeError
  reuse_detected : RefreshPayload → ConsumeError
  consume_failed : ConsumeError

pub data StoreError : Type 0 where
  get_error set_error unmarshal_error smembers_error pipeline_error unknown : StoreError

-- json.Unmarshal into a RefreshPayload.
abbrev pub decode : Value → Option RefreshPayload
decode (refresh_json p) = some p
decode _ = none

abbrev pub create_commands : String → RefreshPayload → ℕ → List Command
create_commands hash payload ttl =
    set (refresh_key hash) (refresh_json payload) ttl
    ∷ sadd (family_key payload.family_id) hash
    ∷ expire (family_key payload.family_id) ttl
    ∷ []

abbrev pub del_hashes : List String → List Command
del_hashes [] = []
del_hashes (h ∷ hs) = del (refresh_key h) ∷ del_hashes hs

-- The state after a pipeline, with `a` if Exec returned no error.
abbrev pub on_exec {ℓ} : {E A : Type ℓ} {S : Type 0} → S × Bool → E → A → S × Result E A
on_exec (s, true) e a = (s, ok a)
on_exec (s, false) e a = (s, err e)

-- The reply to GET as a payload.
abbrev pub payload_of : Reply Value → Result StoreError RefreshPayload
payload_of missing = err unknown
payload_of failed = err get_error
payload_of (found v) = elim (decode v) [ none ↦ err unmarshal_error | some p ↦ ok p ]

-- The tests of Consume after the read.
abbrev pub unused : Result StoreError RefreshPayload → Result ConsumeError RefreshPayload
unused (err unknown) = err unknown_or_expired
unused (err _) = err consume_failed
unused (ok p) = if p.used then err (reuse_detected p) else ok p

-- `hash` stands for sha256hexStr.
module _ (K : Valkey) (hash : String → String) where
  open K use {State, get, smembers, ttl, pipe}

  -- `now` is time.Now().Unix(); `fresh` is the token made of 32 random bytes, `none` where rand.Read
  -- fails.
  unfoldable pub create :
      ℕ → Option String → RefreshPayload → State → State × Result CreateError String
  create now fresh payload s =
      if leb payload.expires now then (s, err already_expired) else elim fresh [
        | none ↦ (s, err entropy)
        | some token ↦
            on_exec
              (pipe
                (create_commands (hash token) (record payload { used = false })
                  (payload.expires - now))
                s)
              create_pipeline token
      ]

  -- Consume reads the token; the caller marks it used.
  unfoldable pub consume : String → State → Result ConsumeError RefreshPayload
  consume token s = unused (payload_of (get (refresh_key (hash token)) s))

  unfoldable pub get_payload : String → State → Result StoreError RefreshPayload
  get_payload token s = payload_of (get (refresh_key (hash token)) s)

  -- What MarkUsed does with the payload that it read.
  pub store_used :
      String → ℕ → State → Result StoreError RefreshPayload → State × Result StoreError (Unit {0})
  store_used token secs s (err unknown) = (s, ok tt)
  store_used token secs s (err e) = (s, err e)
  store_used token secs s (ok p) =
      if p.used
      then (s, ok tt)
      else on_exec
          (pipe (set (refresh_key (hash token)) (refresh_json (record p { used = true })) secs ∷ [])
            s)
          set_error tt

  -- The duration is tested before the error.
  unfoldable pub mark_used : String → State → State × Result StoreError (Unit {0})
  unfolding store_used
  mark_used token s =
      let (secs, error) = ttl (refresh_key (hash token)) s in
      if leb secs 0
      then (s, ok tt)
      else (if error
          then (s, err get_error)
          else store_used token secs s (payload_of (get (refresh_key (hash token)) s)))

  unfoldable pub revoke_family : String → State → State × Result StoreError (Unit {0})
  revoke_family family s = elim (smembers (family_key family) s) [
    | none ↦ (s, err smembers_error)
    | some hashes ↦
        on_exec (pipe (del_hashes hashes ++ del (family_key family) ∷ []) s) pipeline_error tt
  ]
