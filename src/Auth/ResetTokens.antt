-- ===== src/Auth/ResetTokens.antt =====
-- internal/auth/password_reset_token_store.go: the tokens of a password reset.
use schlass.Base.{
  ℕ, ◌+◌, ◌≤◌, ◌≡◌, Bool, true, false, ◌&&◌, Option, none, some, List, ◌∷◌, String, ◌==◌, ltb,
  if◌then◌else◌, All, arith,
}
use schlass.Store.Sql.{find, update_where, count_where, update_where-All}

-- PasswordResetToken, with the column `token_hash`.
pub record ResetToken : Type 0 where
  pub id : String
  pub user_id : String
  pub token_hash : String
  pub expires_at : ℕ
  pub used_at : Option ℕ
  pub created_at : ℕ

abbrev pub is_null : Option ℕ → Bool
is_null none = true
is_null (some t) = false

-- `hmac` stands for crypto.HMACToken under the pepper. The id is what the database gives.
unfoldable pub insert :
    (hmac : String → String) (now : ℕ) (id user_id plaintext : String) (ttl : ℕ)
    → List ResetToken
    → List ResetToken
insert hmac now id user_id plaintext ttl tokens =
    (record {
      id = id;
      user_id = user_id;
      token_hash = hmac plaintext;
      expires_at = now + ttl;
      used_at = none;
      created_at = now;
    })
    ∷ tokens

-- GetByToken, and GetByTokenForUpdate, which also locks the row.
unfoldable pub get_by_token :
    (hmac : String → String) (plaintext : String) → List ResetToken → Option ResetToken
get_by_token hmac plaintext tokens = find (λ t. t.token_hash == hmac plaintext) tokens

unfoldable pub mark_used : (now : ℕ) (id : String) → List ResetToken → List ResetToken
mark_used now id tokens =
    update_where (λ t. t.id == id) (λ t. record t { used_at = some now }) tokens

-- user_id = $1 AND used_at IS NULL AND expires_at > now()
abbrev pub is_outstanding : ℕ → String → ResetToken → Bool
is_outstanding now user_id t = t.user_id == user_id && (is_null t.used_at && ltb now t.expires_at)

-- The table, and how many tokens were outstanding.
unfoldable pub invalidate_outstanding_for_user :
    (now : ℕ) (user_id : String) → List ResetToken → List ResetToken × ℕ
invalidate_outstanding_for_user now user_id tokens = (
  update_where (is_outstanding now user_id) (λ t. record t { used_at = some now }) tokens,
  count_where (is_outstanding now user_id) tokens,
)

invalidated :
    (now later : ℕ) (user_id : String) (t : ResetToken)
    → now ≤ later
    → is_outstanding later user_id
        (if is_outstanding now user_id t then record t { used_at = some now } else t)
      ≡ false
invalidated now later user_id t h = ground arith

-- After a user's tokens were invalidated, no token of that user is outstanding, then or later.
pub none_outstanding :
    (now later : ℕ) (user_id : String) (tokens : List ResetToken)
    → now ≤ later
    → All
        (λ t. is_outstanding later user_id t ≡ false)
        (invalidate_outstanding_for_user now user_id tokens).0
unfolding invalidate_outstanding_for_user
none_outstanding now later user_id tokens h =
    update_where-All (is_outstanding now user_id) (is_outstanding later user_id)
      (λ t. record t { used_at = some now }) tokens (λ t. invalidated now later user_id t h)
