-- ===== src/Auth/Enrollment/Stored.antt =====
-- What the completion of an enrollment stores.
use mathlib.Core.List.{append_assoc, append-nil}
use schlass.Base.{
  ℕ, suc, ◌≡◌, refl, sym, ◌∙◌, Bool, true, false, none, some, List, [], ◌∷◌, ◌++◌, String,
}
use schlass.Store.Tables.{User}
use schlass.Store.Sql.{update_where, update_where-update_where}
use schlass.Users.Store.{has_id, set_totp_enrolled, set_last_login_at}
use schlass.Auth.RecoveryCodes.{RecoveryCode, insert}
use schlass.Auth.Env.{Env}
use schlass.Auth.Enrollment.Complete.{with_ids}

module _ (env : Env) where
  -- The row of the user with the secret, and on the cookie path with the time of the login.
  abbrev pub enrolled_row : Bool → String → User → User
  enrolled_row true encrypted u = record u {
    totp_secret_encrypted = some encrypted;
    totp_enrolled_at = some env.sql_now;
  }
  enrolled_row false encrypted u = record u {
    totp_secret_encrypted = some encrypted;
    totp_enrolled_at = some env.sql_now;
    last_login_at = some env.sql_now;
    updated_at = env.sql_now;
  }

  -- The users after the enrollment: the other rows as they were.
  abbrev pub enrolled_users : Bool → String → String → List User → List User
  enrolled_users authed uid encrypted users =
      update_where (has_id uid) (enrolled_row authed encrypted) users

  pub two_updates :
      (uid encrypted : String) (users : List User)
      → (set_last_login_at false env.sql_now uid
          (set_totp_enrolled false env.sql_now uid encrypted users).0).0
        ≡ enrolled_users false uid encrypted users
  unfolding set_totp_enrolled set_last_login_at
  two_updates uid encrypted users =
      update_where-update_where (has_id uid)
        (λ u. record u {
          totp_secret_encrypted = some encrypted;
          totp_enrolled_at = some env.sql_now;
        })
        (λ u. record u { last_login_at = some env.sql_now; updated_at = env.sql_now }) users
        λ u. refl

  -- A row for each hash, unused, with the ids that the database gives from the n-th on.
  abbrev pub new_codes : String → ℕ → List String → List RecoveryCode
  new_codes uid n [] = []
  new_codes uid n (hash ∷ hashes) =
      record {
        id = env.ids n;
        user_id = uid;
        code_hash = hash;
        used_at = none;
        created_at = env.sql_now;
      }
      ∷ new_codes uid (suc n) hashes

  pub all_inserted :
      (uid : String) (n : ℕ) (hashes : List String) (codes : List RecoveryCode)
      → insert env.sql_now uid (with_ids env.ids n hashes) codes ≡ codes ++ new_codes uid n hashes
  unfolding insert
  all_inserted uid n [] codes = sym (append-nil codes)
  all_inserted uid n (hash ∷ hashes) codes =
      all_inserted uid (suc n) hashes _ ∙ append_assoc codes _ (new_codes uid (suc n) hashes)
