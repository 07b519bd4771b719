-- ===== src/Authorize/Guarantee.antt =====
-- What the authorization endpoint guarantees, from the query to the redirection.
use schlass.Base.{
  ◌≡◌, ◌≢◌, false, some, String, reply, go_on, ◌>>=◌, value_or, Ends, Ends-go_on, Ends-weaken,
  Ends-reply,
}
use schlass.Store.Tables.{Client}
use schlass.Valkey.Server.{Valkey}
use schlass.Authorize.Endpoint.{
  Query, Env, Reply, local_error, redirect_error, redirect_code, to_login, World,
}
use schlass.Authorize.MaxAge.{max_age_of}
use schlass.Authorize.{
  ref_of, invalid_request, server_error, load_client, check_query, need_reauth, authenticated,
  store_code, handle,
}
use schlass.Authorize.Reauth.{Passes, need_reauth-Ends}
use schlass.Authorize.Conditions.{
  HasRegistered, IsValid, IsAuthorized, FinalFor, Stored, load_client-Ends, check_query-Ends,
  authenticated-Ends, store_code-Ends, Stored-FinalFor, value_or-Ends, code_or-Ends,
}

module _ (K : Valkey) (env : Env) (q : Query) (w : World K) where
  -- What holds of a reply.
  abbrev pub Final : Reply → World K → Type 0
  Final (local_error ref) s = s.db.codes ≡ w.db.codes
  Final r s = (c : Client) × HasRegistered K env q w c q.redirect_uri × FinalFor K env q w c r s

  for_client :
      (c : Client)
      → HasRegistered K env q w c q.redirect_uri
      → (r : Reply) (s : World K) → FinalFor K env q w c r s
      → Final r s
  for_client c known (local_error ref) s h = h
  for_client c known (redirect_error uri sep e d state) s h = (c, known, h)
  for_client c known (redirect_code uri sep code state) s h = (c, known, h)
  for_client c known (to_login to) s h = (c, known, h)

  local_only :
      (r : Reply) (s : World K) (ref : String)
      → (s.db.codes ≡ w.db.codes) × (r ≡ local_error ref)
      → Final r s
  local_only (local_error ref) s _ (same, is) = same
  local_only (redirect_error uri sep e d state) s _ (same, is) = cc
  local_only (redirect_code uri sep code state) s _ (same, is) = cc
  local_only (to_login to) s _ (same, is) = cc

  -- From the checks of the query on, for a client.
  client-Final :
      (c : Client) (s : World K)
      → s ≡ w
      → Ends
          (λ _ _. ⊥)
          (FinalFor K env q w c)
          (go_on (check_query K env q c s) λ _.
            value_or
              (max_age_of q.max_age)
              (invalid_request q.redirect_uri q.state "max_age invalid")
            >>= λ max_age. need_reauth K env q max_age env.current_user >>= λ again.
                authenticated K env q env.current_user again >>= λ u.
                value_or env.fresh_code (server_error q.redirect_uri q.state "entropy")
                >>= store_code K env q c u)
  client-Final c s same =
      Ends-go_on (λ _ s'. (s' ≡ w) × IsValid K env q w c) (λ _ _. ⊥) (FinalFor K env q w c) _ _
        (check_query-Ends K env q w c s same)
        λ _ s₁ (same₁, valid).
          Ends-go_on (λ a s'. (s' ≡ w) × (max_age_of q.max_age ≡ some a)) (λ _ _. ⊥)
            (FinalFor K env q w c) _ _
            (value_or-Ends K env q w c (max_age_of q.max_age) q.state "max_age invalid" s₁ same₁)
            λ max_age s₂ (same₂, given). rw same₂ (
              Ends-go_on (λ again s'. (s'.db ≡ w.db) × Passes K env q w max_age again) (λ _ _. ⊥)
                (FinalFor K env q w c) _ _
                (need_reauth-Ends K env q w (FinalFor K env q w c) max_age env.current_user)
                λ again s₃ (same₃, asked).
                  Ends-go_on
                    (λ u s'. (s'.db ≡ w.db) × (again ≡ false) × (env.current_user ≡ some u))
                    (λ _ _. ⊥) (FinalFor K env q w c) _ _
                    (authenticated-Ends K env q w c again s₃ env.current_user same₃)
                    λ u s₄ (same₄, recent, user).
                      Ends-go_on (λ a s'. (s'.db ≡ w.db) × (env.fresh_code ≡ some a)) (λ _ _. ⊥)
                        (FinalFor K env q w c) _ _
                        (code_or-Ends K env q w c env.fresh_code s₄ same₄)
                        λ code s₅ (same₅, fresh).
                          Ends-weaken (λ _ _. ⊥) (Stored K env q w c u code) (FinalFor K env q w c)
                            _
                            (Stored-FinalFor K env q w c u code max_age valid user given
                              (rw recent at asked) fresh)
                            (store_code-Ends K env q w c u code s₅ same₅))

  handle-Final : Ends (λ _ _. ⊥) Final (handle K env q w)
  unfolding handle
  handle-Final =
      Ends-go_on (λ c s. (s ≡ w) × HasRegistered K env q w c q.redirect_uri) (λ _ _. ⊥) Final _ _
        (Ends-weaken (λ c s. (s ≡ w) × HasRegistered K env q w c q.redirect_uri)
          (λ r s. (s.db.codes ≡ w.db.codes) × (r ≡ local_error (ref_of env.error_ref))) Final
          (load_client K env q w) (λ r s. local_only r s (ref_of env.error_ref))
          (load_client-Ends K env q w))
        λ c s (same, known).
          Ends-weaken (λ _ _. ⊥) (FinalFor K env q w c) Final _ (for_client c known)
            (client-Final c s same)

  -- A code is sent only to the URI of the request, with its state, if: an active client has registered that URI; the
  -- request asks for a code with PKCE S256 and scopes that the client is allowed, openid among them; a user is
  -- logged in, prompt=login is not asked for, and where max_age asks for it, the session of the cookie, if one is read, is not
  -- older than that. The code is the fresh one, whose hash no row has, and the only change to the table of codes is its
  -- row, which carries the ids of the client and the user, the URI, the scopes and the challenge, unused, for 60 seconds.
  pub handle-IsAuthorized :
      (s : World K) (uri sep code state : String)
      → handle K env q w ≡ (s, reply (redirect_code uri sep code state))
      → (c : Client) × HasRegistered K env q w c q.redirect_uri
        × ((uri ≡ q.redirect_uri) × (state ≡ q.state) × IsAuthorized K env q w c s code)
  handle-IsAuthorized s uri sep code state e = Ends-reply (λ _ _. ⊥) Final _ e handle-Final

  -- An error is sent to no other URI than the one of the request, and that only if an active client has registered it;
  -- and the table of codes is as it was.
  pub error_only_to_registered :
      (s : World K) (uri sep error description state : String)
      → handle K env q w ≡ (s, reply (redirect_error uri sep error description state))
      → (c : Client) × HasRegistered K env q w c q.redirect_uri
        × ((s.db.codes ≡ w.db.codes) × (uri ≡ q.redirect_uri))
  error_only_to_registered s uri sep error description state e =
      Ends-reply (λ _ _. ⊥) Final _ e handle-Final

  -- Under prompt=none the user is never sent to the login page.
  pub no_login_page_under_none :
      (s : World K) (return_to : String)
      → q.prompt ≡ "none"
      → handle K env q w ≢ (s, reply (to_login return_to))
  no_login_page_under_none s return_to none_asked e =
      let (_, _, (_, other)) = Ends-reply (λ _ _. ⊥) Final _ e handle-Final in other none_asked
