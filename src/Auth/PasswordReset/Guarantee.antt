-- ===== src/Auth/PasswordReset/Guarantee.antt =====
-- When a password is reset, and what a refusal leaves.
use schlass.Base.{
  ℕ, ◌==◌, List, ◌∙◌, ◌≡◌, ◌≢◌, refl, inl, inr, true, false, Option, none, some, String, reply,
  Ends, Ends-then, Ends-reply, go_on, arith, eq_iff, Option-cases, ◌>>=◌, ◌>>◌,
}
use schlass.Valkey.Server.{Valkey}
use schlass.Session.Store.{delete_all_for_user}
use schlass.Session.RevokeBefore.{revoke_before_set_now}
use schlass.Store.Tables.{User}
use schlass.Store.Sql.{update_where, update_where-update_where}
use schlass.Users.Store.{has_id, with_password, set_password_hash}
use schlass.Users.Lockout.{reset, clear_lockout_for_password_change}
use schlass.Validate.Credentials.{password}
use schlass.Auth.ResetTokens.{ResetToken, get_by_token, mark_used}
use schlass.Auth.Env.{Lib, Config, Env, Reply, failure, reset_done, World}
use schlass.Auth.Steps.{invalid_body}
use schlass.Auth.PasswordReset.{
  ConfirmRequest, is_spent, load_token, check_new_password, store_reset, revoke_after, post_confirm,
}

module _ (K : Valkey) (lib : Lib) (config : Config) (env : Env) (body : Option ConfirmRequest)
    (w : World K) where
  -- The users, the tokens and Valkey are as they were.
  abbrev pub IsKept : World K → Type 0
  IsKept s =
      (s.kv ≡ w.kv) × (s.db.core.users ≡ w.db.core.users) × (s.db.reset_tokens ≡ w.db.reset_tokens)

  -- The users with the new hash in the row of this one, and the other rows as they were.
  abbrev pub reset_users : String → String → List User
  reset_users uid hash =
      update_where (has_id uid)
        (λ u. record u {
          password_hash = hash;
          force_password_change = false;
          failed_login_attempts = 0;
          locked_until = none;
          updated_at = env.sql_now;
        })
        w.db.core.users

  two_updates :
      (uid hash : String)
      → clear_lockout_for_password_change env.sql_now uid
          (set_password_hash false env.sql_now uid hash false w.db.core.users).0
        ≡ reset_users uid hash
  unfolding set_password_hash clear_lockout_for_password_change
  two_updates uid hash =
      update_where-update_where (has_id uid) (with_password env.sql_now hash false)
        (reset env.sql_now) w.db.core.users λ u. refl

  marked :
      (id : String)
      → mark_used env.sql_now id w.db.reset_tokens
        ≡ update_where
            (λ t. t.id == id)
            (λ t. record t { used_at = some env.sql_now })
            w.db.reset_tokens
  unfolding mark_used
  marked id = refl

  -- Why a password is reset, and what that leaves.
  pub record IsConfirmed (uid : String) (s : World K) : Type 0 where
    pub req : ConfirmRequest
    pub token : ResetToken
    pub hash : String
    pub asked : body ≡ some req
    pub known : get_by_token lib.hmac_token req.token w.db.reset_tokens ≡ some token
    pub unspent : is_spent env.now token ≡ false
    pub allowed :
        password lib.is_upper lib.is_digit req.password w.db.settings.password_policy ≡ none
    pub not_breached : lib.is_pwned req.password ≢ some true
    pub hashed : lib.hash_password req.password ≡ some hash
    pub owner : uid ≡ token.user_id
    pub users : s.db.core.users ≡ reset_users token.user_id hash
    pub tokens :
        s.db.reset_tokens
        ≡ update_where
            (λ t. t.id == token.id)
            (λ t. record t { used_at = some env.sql_now })
            w.db.reset_tokens
    pub revoked :
        s.kv
        ≡ (delete_all_for_user K config.session_ttl token.user_id
            (revoke_before_set_now K token.user_id env.now w.kv).0).0

  abbrev pub Final : Reply → World K → Type 0
  Final (reset_done uid) s = IsConfirmed uid s
  Final _ s = IsKept s

  abbrev IsOpen : World K → Type 0
  IsOpen s =
      IsKept s
      × (s.view.core.users ≡ w.db.core.users)
      × (s.view.reset_tokens ≡ w.db.reset_tokens)
      × (s.view.settings ≡ w.db.settings)

  load_token-Ends :
      (text : String)
      → Ends
          (λ t s.
            IsOpen s
            × (get_by_token lib.hmac_token text w.db.reset_tokens ≡ some t)
            × (is_spent env.now t ≡ false))
          Final
          (load_token K lib config env text w)
  unfolding load_token
  load_token-Ends text = ground (arith, eq_iff text "")

  check_new_password-Ends :
      (t : ResetToken) (text : String) (s : World K)
      → IsOpen s
      → Ends
          (λ hash s'.
            IsOpen s'
            × (password lib.is_upper lib.is_digit text w.db.settings.password_policy ≡ none)
            × (lib.is_pwned text ≢ some true)
            × (lib.hash_password text ≡ some hash))
          Final
          (check_new_password K lib config env t text s)
  unfolding check_new_password
  check_new_password-Ends t text s now_open = ground arith

  store_reset-Ends :
      (t : ResetToken) (hash : String) (s : World K)
      → IsOpen s
      → Ends
          (λ _ s'.
            (s'.kv ≡ w.kv)
            × (s'.db.core.users
                ≡ clear_lockout_for_password_change env.sql_now t.user_id
                    (set_password_hash false env.sql_now t.user_id hash false w.db.core.users).0)
            × (s'.db.reset_tokens ≡ mark_used env.sql_now t.id w.db.reset_tokens))
          Final
          (store_reset K lib config env t hash s)
  unfolding store_reset set_password_hash
  store_reset-Ends t hash s now_open = ground arith

  asked-Final :
      (req : ConfirmRequest)
      → body ≡ some req
      → Ends {A = ⊥}
          (λ _ _. ⊥)
          Final
          (go_on (load_token K lib config env req.token w) λ t.
            check_new_password K lib config env t req.password >>= λ hash.
            store_reset K lib config env t hash >> revoke_after K lib config env t)
  asked-Final req asked =
      Ends-then {A = ResetToken}
        (λ t s.
          IsOpen s
          × (get_by_token lib.hmac_token req.token w.db.reset_tokens ≡ some t)
          × (is_spent env.now t ≡ false))
        Final _ _ (load_token-Ends req.token)
        λ t s (now_open, known, unspent).
          Ends-then {A = String}
            (λ hash s'.
              IsOpen s'
              × (password lib.is_upper lib.is_digit req.password w.db.settings.password_policy
                  ≡ none)
              × (lib.is_pwned req.password ≢ some true)
              × (lib.hash_password req.password ≡ some hash))
            Final _ _ (check_new_password-Ends t req.password s now_open)
            λ hash s₁ (open₁, allowed, not_breached, hashed).
              Ends-then {A = Unit {0}}
                (λ _ s'.
                  (s'.kv ≡ w.kv)
                  × (s'.db.core.users
                      ≡ clear_lockout_for_password_change env.sql_now t.user_id
                          (set_password_hash false env.sql_now t.user_id hash false
                            w.db.core.users).0)
                  × (s'.db.reset_tokens ≡ mark_used env.sql_now t.id w.db.reset_tokens))
                Final _ _ (store_reset-Ends t hash s₁ open₁)
                λ _ s₂ (kv, users, tokens). record {
                  req = req;
                  token = t;
                  hash = hash;
                  asked = asked;
                  known = known;
                  unspent = unspent;
                  allowed = allowed;
                  not_breached = not_breached;
                  hashed = hashed;
                  owner = refl;
                  users = users ∙ two_updates t.user_id hash;
                  tokens = tokens ∙ marked t.id;
                  revoked = rw kv refl;
                }

  pub handle-Final : Ends (λ _ _. ⊥) Final (post_confirm K lib config env body w)
  unfolding post_confirm
  handle-Final = elim (Option-cases body) [
    | inl malformed ↦
        let is : post_confirm K lib config env body w ≡ (w, reply invalid_body) =
          rw (malformed, post_confirm) refl in
        rw is (refl, refl, refl)
    | inr (req, asked) ↦
        let is : post_confirm K lib config env body w
            ≡ go_on (load_token K lib config env req.token w) (λ t.
              check_new_password K lib config env t req.password >>= λ hash.
              store_reset K lib config env t hash >> revoke_after K lib config env t) =
          rw (asked, post_confirm) refl in
        rw is (asked-Final req asked)
  ]

  -- A password is reset only if: the token of the request is known, unused and unexpired; the policy allows the new password,
  -- which is not known to be breached. The row of the token's user then has the hash of it, no failed attempts and no
  -- lock, the other rows are as they were, and the token is used; and Valkey is as the cutoff of the user, set to now, and then
  -- DeleteAllForUser leave it, whose failures are ignored.
  pub post_confirm-IsConfirmed :
      (s : World K) (uid : String)
      → post_confirm K lib config env body w ≡ (s, reply (reset_done uid))
      → IsConfirmed uid s
  post_confirm-IsConfirmed s uid e = Ends-reply (λ _ _. ⊥) Final _ e handle-Final

  -- A confirmation that is answered with anything but success changes no user, no token and nothing in Valkey.
  pub post_confirm-refused :
      (s : World K) (status : ℕ) (code message : String)
      → post_confirm K lib config env body w ≡ (s, reply (failure status code message))
      → IsKept s
  post_confirm-refused s status code message e = Ends-reply (λ _ _. ⊥) Final _ e handle-Final
