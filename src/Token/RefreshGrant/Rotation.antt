-- ===== src/Token/RefreshGrant/Rotation.antt =====
-- What the refresh grant guarantees, from the form to the reply.
use schlass.Base.{
  ◌<◌, ◌≡◌, ◌≢◌, refl, sym, ◌⊎◌, inl, inr, true, false, ok, err, reply, go_on, ◌>>=◌, ◌>>◌, Ends,
  Ends-reply, Ends-go_on, Ends-weaken,
}
use schlass.Store.Tables.{Client, User}
use schlass.Valkey.Keys.{RefreshPayload, refresh_key}
use schlass.Valkey.Server.{Valkey}
use schlass.Refresh.{consume, reuse_detected, consume_failed, mark_used}
use schlass.Refresh.Rotation.{consume-rotated}
use schlass.Oidc.Scopes.{Scopes}
use schlass.Oidc.Claims.{unix}
use schlass.Token.Env.{Crypto, Config, Form, Env, TokenResponse, Reply, token_error, tokens, World}
use schlass.Token.RefreshGrant.{
  consume_presented, revalidate, load_user, check_cutoff, issue, handle_refresh_token,
}
use schlass.Token.RefreshGrant.Conditions
use schlass.Token.RefreshGrant.Conditions.{IsRotated}

module _ (K : Valkey) (crypto : Crypto) (config : Config) (env : Env) (form : Form)
    (w : World K) where
  abbrev Final : Reply → World K → Type 0
  Final = Conditions.Final K crypto config env form w

  Issued-Final :
      (old : RefreshPayload) (client : Client) (u : User) (scopes : Scopes)
      (s₀ s₁ s₂ s₃ s₄ : World K)
      → Conditions.IsAuthentic K crypto config env form w client s₀
      → Conditions.IsConsumed K crypto config env form w old s₁
      → Conditions.IsAllowed K crypto config env form w old client scopes s₂
      → Conditions.IsActiveOwner K crypto config env form w old u s₃
      → Conditions.IsAfterCutoff K crypto config env form w old u s₄
      → (r : Reply) (s : World K)
      → Conditions.Issued K crypto config env form w old client u scopes r s
      → Final r s
  Issued-Final old client u scopes s₀ s₁ s₂ s₃ s₄ (_, authentic, known) (_, taken)
        (_, to, granted, narrowed) (_, active, (uid, named, owner)) (_, cutoff) (tokens t) s
        (scope, kept, renewed, marked) =
      (
        record {
          client = client;
          old = old;
          user = u;
          uid = uid;
          scopes = scopes;
          authentic = authentic;
          known = known;
          consumed = taken;
          issued_to = to;
          granted = granted;
          narrowed = narrowed;
          named = named;
          found = owner;
          active = active;
          not_revoked = cutoff;
          renewed = renewed;
          marked = marked;
          scope = scope;
        },
        kept,
      )
  Issued-Final old client u scopes s₀ s₁ s₂ s₃ s₄ _ _ _ _ _ (token_error status e d) s kept = kept

  authentic-Final :
      (client : Client) (s₀ : World K)
      → Conditions.IsAuthentic K crypto config env form w client s₀
      → Ends
          (λ _ _. ⊥)
          Final
          (go_on (consume_presented K crypto config env form client s₀) λ old.
            revalidate K crypto config env form old client >>= λ scopes.
            load_user K crypto config env form old client >>= λ u.
            check_cutoff K crypto config env form old client u
            >> issue K crypto config env form old client u scopes)
  authentic-Final client s₀ authentic =
      Ends-go_on (Conditions.IsConsumed K crypto config env form w) (λ _ _. ⊥) Final _ _
        (Conditions.consume_presented-Ends K crypto config env form w client s₀ authentic.0)
        λ old s₁ taken.
          Ends-go_on (Conditions.IsAllowed K crypto config env form w old client) (λ _ _. ⊥) Final _
            _ (Conditions.revalidate-Ends K crypto config env form w old client s₁ taken.0)
            λ scopes s₂ allowed.
              Ends-go_on (Conditions.IsActiveOwner K crypto config env form w old) (λ _ _. ⊥) Final
                _ _ (Conditions.load_user-Ends K crypto config env form w old client s₂ allowed.0)
                λ u s₃ owner.
                  Ends-go_on (λ _. Conditions.IsAfterCutoff K crypto config env form w old u)
                    (λ _ _. ⊥) Final _ _
                    (Conditions.check_cutoff-Ends K crypto config env form w old client u s₃
                      owner.0)
                    λ _ s₄ after.
                      Ends-weaken (λ _ _. ⊥)
                        (Conditions.Issued K crypto config env form w old client u scopes) Final _
                        (Issued-Final old client u scopes s₀ s₁ s₂ s₃ s₄ authentic taken allowed
                          owner after)
                        (Conditions.issue-Ends K crypto config env form w old client u scopes s₄
                          after.0)

  handle-Final : Ends (λ _ _. ⊥) Final (handle_refresh_token K crypto config env form w)
  unfolding handle_refresh_token
  handle-Final =
      Ends-go_on (λ _ s. s ≡ w) (λ _ _. ⊥) Final _ _
        (Conditions.check_refresh_form-Ends K crypto config env form w)
        λ _ s same. rw same (
          Ends-go_on (λ _. Conditions.IsUnchanged K crypto config env form w) (λ _ _. ⊥) Final _ _
            (Conditions.rate_limit_check-Ends K crypto config env form w)
            λ _ s here.
              Ends-go_on (Conditions.IsAuthentic K crypto config env form w) (λ _ _. ⊥) Final _ _
                (Conditions.authenticate_client-Ends K crypto config env form w s here)
                λ client s₀ a. authentic-Final client s₀ a)

  -- Tokens are issued only if: the client proved its secret and is active; Consume gave the refresh token out as
  -- unused; it was issued to this client; the client is still allowed the grant; the scopes are those of the token that
  -- the client is still allowed; the user of the token exists and is active; the cutoff of that user,
  -- if it can be read, is not later than the token (the cutoff of the client is not looked at). Create has then been given a
  -- token in the family of the old one and with its expiry, and succeeded, and the old one has gone through MarkUsed, whatever
  -- came of that; but for the audit log the database is as it was.
  pub handle_refresh_token-IsRotated :
      (s : World K) (t : TokenResponse)
      → handle_refresh_token K crypto config env form w ≡ (s, reply (tokens t))
      → IsRotated K crypto config env form w s t × Conditions.IsKept K crypto config env form w s
  handle_refresh_token-IsRotated s t e = Ends-reply (λ _ _. ⊥) Final _ e handle-Final

  -- When tokens were issued, MarkUsed of the old token succeeded while that token had time to live, and the old and
  -- the new token have different hashes: the new token is given out, to the same client, in the family of
  -- the old one and with its expiry; the old one is recognised as reused; else only an error of a read is answered.
  pub rotation_effect :
      (s : World K) (t : TokenResponse) (why : IsRotated K crypto config env form w s t)
      → crypto.sha256hex t.refresh_token ≢ crypto.sha256hex form.refresh_token
      → 0
        < (K.ttl
            (refresh_key (crypto.sha256hex form.refresh_token))
            (Conditions.created K crypto config env form w why.old why.client why.user
              why.scopes).0).0
      → mark_used K crypto.sha256hex form.refresh_token
          (Conditions.created K crypto config env form w why.old why.client why.user why.scopes).0
        ≡ (s.kv, ok tt)
      → ((consume K crypto.sha256hex t.refresh_token s.kv ≡ err consume_failed)
          ⊎ ((p : RefreshPayload) × (consume K crypto.sha256hex t.refresh_token s.kv ≡ ok p)
              × (p.client_id ≡ why.old.client_id)
              × (p.family_id ≡ why.old.family_id)
              × (p.expires ≡ why.old.expires)))
        × ((consume K crypto.sha256hex form.refresh_token s.kv
              ≡ err (reuse_detected (record why.old { used = true })))
            ⊎ (consume K crypto.sha256hex form.refresh_token s.kv ≡ err consume_failed))
  rotation_effect s t why differ alive marked =
      let c =
        Conditions.created K crypto config env form w why.old why.client why.user why.scopes in
      let payload =
        Conditions.successor K crypto config env form w why.old why.client why.user why.scopes in
      let (new, old) =
        consume-rotated K crypto.sha256hex (unix env.store_now) env.fresh form.refresh_token
          t.refresh_token why.old payload (Conditions.counted K crypto config env form w) c.0 s.kv
          why.consumed (λ i. (c.0, why.renewed i)) differ alive marked in
      (
        elim new [
          | inl given ↦ inr (record payload { used = false }, given, sym why.issued_to, refl, refl)
          | inr broken ↦ inl broken
        ],
        old,
      )
