-- ===== src/Token/Handle.antt =====
-- Handle of internal/authserver/token.go: the token endpoint.
use schlass.Base.{
  Bool, true, false, ◌≡◌, ◌⊎◌, inl, inr, ◌==◌, if◌then◌else◌, reply, eq_iff, arith, Bool-cases,
  refl,
}
use schlass.Valkey.Server.{Valkey}
use schlass.Token.Env.{Crypto, Config, Form, Env, TokenResponse, token_error, tokens, World}
use schlass.Token.Shared.{Step}
use schlass.Token.CodeGrant.{handle_authorization_code}
use schlass.Token.CodeGrant.Conditions.{IsRedeemed}
use schlass.Token.CodeGrant.Guarantee.{handle_authorization_code-IsRedeemed}
use schlass.Token.RefreshGrant.{handle_refresh_token}
use schlass.Token.RefreshGrant.Conditions.{IsRotated}
use schlass.Token.RefreshGrant.Rotation.{handle_refresh_token-IsRotated}

module _ (K : Valkey) (crypto : Crypto) (config : Config) (env : Env) (form : Form) where
  -- `malformed` says that ParseForm fails, as on a body of more than 64 KiB.
  unfoldable pub handle : (malformed : Bool) → Step K ⊥
  handle malformed w =
      if malformed
      then (w, reply (token_error 400 "invalid_request" "Malformed form body."))
      else (if form.grant_type == "authorization_code"
          then handle_authorization_code K crypto config env form w
          else (if form.grant_type == "refresh_token"
              then handle_refresh_token K crypto config env form w
              else (
                w,
                reply (token_error 400 "unsupported_grant_type" "grant_type not supported."),
              )))

  -- The endpoint answers with tokens only where the form was read and either its grant type is authorization_code and a
  -- code is redeemed, or it is refresh_token and a refresh token is rotated.
  pub handle-tokens :
      (malformed : Bool) (w s : World K) (t : TokenResponse)
      → handle malformed w ≡ (s, reply (tokens t))
      → (malformed ≡ false)
        × (((form.grant_type ≡ "authorization_code") × IsRedeemed K crypto config env form w s t)
            ⊎ ((form.grant_type ≡ "refresh_token") × IsRotated K crypto config env form w s t))
  unfolding handle
  handle-tokens true w s t e = cc
  handle-tokens false w s t e = elim (Bool-cases (form.grant_type == "authorization_code")) [
    | inl code ↦ (
      refl,
      inl (
        (let it = eq_iff form.grant_type "authorization_code" in ground arith),
        handle_authorization_code-IsRedeemed K crypto config env form w s t (rw code at e),
      ),
    )
    | inr other ↦ elim (Bool-cases (form.grant_type == "refresh_token")) [
      | inl refresh ↦ (
        refl,
        inr (
          (let it = eq_iff form.grant_type "refresh_token" in ground arith),
          (handle_refresh_token-IsRotated K crypto config env form w s t
              (rw (other, refresh) at e)).0,
        ),
      )
      | inr none_of_both ↦ let never = rw (other, none_of_both) at e in cc
    ]
  ]
