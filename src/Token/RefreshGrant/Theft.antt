-- ===== src/Token/RefreshGrant/Theft.antt =====
-- A refresh token that is presented a second time.
use schlass.Base.{◌≡◌, ◌≢◌, String, Result, ok, err, reply, refl, arith}
use schlass.Store.Tables.{Client}
use schlass.Valkey.Keys.{RefreshPayload}
use schlass.Valkey.Server.{Valkey}
use schlass.Refresh.{StoreError, consume, reuse_detected, revoke_family}
use schlass.Refresh.Family.{IsLinked, consume-revoke_family}
use schlass.Token.Env.{Crypto, Config, Form, Env, token_error, World}
use schlass.Token.Shared.{write_best_effort_audit}
use schlass.Token.RefreshGrant.{revoke_and_refuse, consume_presented}

module _ (K : Valkey) (crypto : Crypto) (config : Config) (env : Env) (form : Form) where
  -- The audit of a failure leaves Valkey as it was.
  audit_kv : (e : _) (w : World K) → (write_best_effort_audit K env e w).kv ≡ w.kv
  unfolding write_best_effort_audit
  audit_kv e w = ground arith

  -- What Consume gives out of the family in a state that a revocation with this result left: after a success, nothing.
  abbrev pub Ended : (family : String) → K.State → Result StoreError (Unit {0}) → Type 0
  Ended family s (ok _) =
      (token : String) (p : RefreshPayload)
      → consume K crypto.sha256hex token s ≡ ok p
      → p.family_id ≢ family
  Ended family s (err e) = Unit {0}

  revoked-Ended :
      (family : String) (s : K.State) (r : K.State × Result StoreError (Unit {0}))
      → IsLinked K crypto.sha256hex s
      → revoke_family K crypto.sha256hex family s ≡ r
      → Ended family r.0 r.1
  revoked-Ended family s (t, ok _) linked e =
      consume-revoke_family K crypto.sha256hex family s t linked e
  revoked-Ended family s (t, err _) linked e = tt

  -- In a store whose family sets name the tokens that are held, when Consume finds the presented token used, the request is
  -- refused with 400 invalid_grant, whatever comes of the revocation of its family; and if that succeeded, then
  -- afterwards no token of that family is given out by Consume, whichever is presented.
  pub reuse_ends_family :
      (client : Client) (w : World K) (old : RefreshPayload)
      → consume K crypto.sha256hex form.refresh_token w.kv ≡ err (reuse_detected old)
      → IsLinked K crypto.sha256hex w.kv
      → ((consume_presented K crypto config env form client w).1
          ≡ reply (token_error 400 "invalid_grant" "Refresh token already used (family revoked)."))
        × Ended old.family_id
            (consume_presented K crypto config env form client w).0.kv
            (revoke_family K crypto.sha256hex old.family_id w.kv).1
  unfolding consume_presented revoke_and_refuse
  reuse_ends_family client w old found linked =
      rw (found, audit_kv)
        (
          refl,
          revoked-Ended old.family_id w.kv (revoke_family K crypto.sha256hex old.family_id w.kv)
              linked refl,
        )
