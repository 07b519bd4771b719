-- ===== src/Token/CodeGrant/Guarantee.antt =====
-- What the authorization-code grant guarantees, from the form to the reply.
use schlass.Base.{
  ℕ, ◌≡◌, ap, ◌⊎◌, inl, inr, String, Outcome, next, reply, go_on, ◌>>=◌, Ends, Ends-reply,
  Ends-go_on, Ends-weaken, arith,
}
use schlass.Store.Tables.{Client, User, AuthCode}
use schlass.AuthCode.{consume_once}
use schlass.Valkey.Server.{Valkey}
use schlass.Oidc.Scopes.{Scopes, to_string}
use schlass.Token.Env.{Crypto, Config, Form, Env, TokenResponse, Reply, token_error, tokens, World}
use schlass.Token.Shared.{server_error, begin}
use schlass.Token.CodeGrant.{
  check_binding, load_user, revalidate, issue, redeem, handle_authorization_code,
}
use schlass.Token.CodeGrant.Conditions
use schlass.Token.CodeGrant.Conditions.{IsRedeemed}

module _ (K : Valkey) (crypto : Crypto) (config : Config) (env : Env) (form : Form)
    (w : World K) where
  abbrev Final : Reply → World K → Type 0
  Final = Conditions.Final K crypto config env form w

  abbrev Consumed : World K → Type 0
  Consumed = Conditions.Consumed K crypto config env form w

  Issued-Final :
      (scopes : Scopes)
      → ((s : World K) (t : TokenResponse)
          → t.scope ≡ to_string scopes
          → s.db.codes ≡ Conditions.burned K crypto config env form w
          → IsRedeemed K crypto config env form w s t)
      → (r : Reply) (s : World K) → Conditions.Issued K crypto config env form w scopes r s
      → Final r s
  Issued-Final scopes done (tokens t) s (scope, spent) = done s t scope spent
  Issued-Final scopes done (token_error status e d) s same =
      (inl (ap (λ d. d.codes) same), λ _. same)

  issued-Final :
      (client : Client) (row : AuthCode) (u : User) (scopes : Scopes) (s₀ s₁ s₂ s₃ s₄ : World K)
      → Conditions.IsAuthentic K crypto config env form w client s₀
      → Conditions.IsTaken K crypto config env form w row s₁
      → Conditions.IsBound K crypto config env form w row client s₂
      → Conditions.IsActiveOwner K crypto config env form w row u s₃
      → Conditions.IsAllowed K crypto config env form w row client scopes s₄
      → Ends (λ _ _. ⊥) Final (issue K crypto config env form row client u scopes s₄)
  issued-Final client row u scopes s₀ s₁ s₂ s₃ s₄ (_, authentic, known) (_, _, _, taken)
        (_, to, for, proof) (_, owner, active) (here, granted, narrowed) =
      Ends-weaken (λ _ _. ⊥) (Conditions.Issued K crypto config env form w scopes) Final
        (issue K crypto config env form row client u scopes s₄)
        (Issued-Final scopes λ s t scope spent. record {
          client = client;
          row = row;
          user = u;
          scopes = scopes;
          authentic = authentic;
          known = known;
          consumed = taken;
          issued_to = to;
          issued_for = for;
          proved = proof;
          found = owner;
          active = active;
          granted = granted;
          narrowed = narrowed;
          scope = scope;
          spent = spent;
        })
        (Conditions.issue-Ends K crypto config env form w row client u scopes s₄ here)

  -- From the consumption of the code on.
  taken-Final :
      (client : Client) (row : AuthCode) (s₀ s₁ : World K)
      → Conditions.IsAuthentic K crypto config env form w client s₀
      → Conditions.IsTaken K crypto config env form w row s₁
      → Ends
          (λ _ _. ⊥)
          Final
          (go_on (check_binding K crypto config env form row client s₁) λ _.
            load_user K crypto config env form row client >>= λ u.
            revalidate K crypto config env form row client u
            >>= issue K crypto config env form row client u)
  taken-Final client row s₀ s₁ authentic taken =
      Ends-go_on (λ _. Conditions.IsBound K crypto config env form w row client) (λ _ _. ⊥) Final _
        _
        (Conditions.check_binding-Ends K crypto config env form w row client s₁
          (taken.0, taken.1, taken.2))
        λ _ s₂ bound.
          Ends-go_on (Conditions.IsActiveOwner K crypto config env form w row) (λ _ _. ⊥) Final _ _
            (Conditions.load_user-Ends K crypto config env form w row client s₂ bound.0)
            λ u s₃ owner.
              Ends-go_on (Conditions.IsAllowed K crypto config env form w row client) (λ _ _. ⊥)
                Final _ _
                (Conditions.revalidate-Ends K crypto config env form w row client u s₃ owner.0)
                λ scopes s₄ allowed.
                  issued-Final client row u scopes s₀ s₁ s₂ s₃ s₄ authentic taken bound owner
                    allowed

  -- The state in which the transaction begins.
  begun-Ends :
      (s : World K)
      → s.db ≡ w.db
      → Ends
          (λ _ s'. (s'.db ≡ w.db) × (s'.view ≡ w.db))
          Final
          (begin K env (server_error "Could not begin transaction.") s)
  begun-Ends s same = ground arith

  redeem-Final :
      (client : Client) (s : World K)
      → Conditions.IsAuthentic K crypto config env form w client s
      → Ends (λ _ _. ⊥) Final (redeem K crypto config env form client s)
  unfolding redeem
  redeem-Final client s authentic =
      Ends-go_on (λ _ s₀. (s₀.db ≡ w.db) × (s₀.view ≡ w.db)) (λ _ _. ⊥) Final _ _
        (begun-Ends s authentic.0)
        λ _ s₀ (same, view).
          Ends-go_on (Conditions.IsTaken K crypto config env form w) (λ _ _. ⊥) Final _ _
            (Conditions.consume_code-Ends K crypto config env form w s₀ same view)
            λ row s₁ taken. taken-Final client row s s₁ authentic taken

  handle-Final : Ends (λ _ _. ⊥) Final (handle_authorization_code K crypto config env form w)
  unfolding handle_authorization_code
  handle-Final =
      Ends-go_on (λ _ s. s ≡ w) (λ _ _. ⊥) Final _ _
        (Conditions.check_code_form-Ends K crypto config env form w)
        λ _ s₀ same₀.
          Ends-go_on (λ _ s. s.db ≡ w.db) (λ _ _. ⊥) Final _ _
            (Conditions.rate_limit_check-Ends K crypto config env form w s₀ (ap (λ v. v.db) same₀))
            λ _ s₁ same₁.
              Ends-go_on (Conditions.IsAuthentic K crypto config env form w) (λ _ _. ⊥) Final _ _
                (Conditions.authenticate_client-Ends K crypto config env form w s₁ same₁)
                λ client s₂ authentic. redeem-Final client s₂ authentic

  -- Tokens are issued only if: the client proved its secret and is active; the code was unused and unexpired, and the
  -- request consumed it; it was issued to this client, for this redirect URI, under the challenge of this
  -- verifier; its user exists and is active; the client is still allowed the grant; and the scopes are those of the
  -- code that the client is still allowed. The consumption of the code is then committed.
  pub handle_authorization_code-IsRedeemed :
      (s : World K) (t : TokenResponse)
      → handle_authorization_code K crypto config env form w ≡ (s, reply (tokens t))
      → IsRedeemed K crypto config env form w s t
  handle_authorization_code-IsRedeemed s t e = Ends-reply (λ _ _. ⊥) Final _ e handle-Final

  -- A refused request leaves the table of codes as it was, or with the code of the form consumed and no other change;
  -- and a server error (status 500) leaves the whole database as it was.
  pub refusal_effect :
      (s : World K) (status : ℕ) (error description : String)
      → handle_authorization_code K crypto config env form w
        ≡ (s, reply (token_error status error description))
      → ((s.db.codes ≡ w.db.codes)
          ⊎ (s.db.codes ≡ (consume_once env.sql_now (crypto.sha256hex form.code) w.db.codes).0))
        × (status ≡ 500 → s.db ≡ w.db)
  refusal_effect s status error description e = Ends-reply (λ _ _. ⊥) Final _ e handle-Final

  codes_of_outcome :
      (m : World K × Outcome Reply ⊥)
      → Ends (λ _ _. ⊥) Final m
      → (m.0.db.codes ≡ w.db.codes) ⊎ (m.0.db.codes ≡ Conditions.burned K crypto config env form w)
  codes_of_outcome (s, next x) h = elim x [ ]
  codes_of_outcome (s, reply (tokens t)) h = inr h.spent
  codes_of_outcome (s, reply (token_error status e d)) h = h.0

  -- The only change that the handler makes to the table of codes.
  pub handle-codes :
      ((handle_authorization_code K crypto config env form w).0.db.codes ≡ w.db.codes)
      ⊎ ((handle_authorization_code K crypto config env form w).0.db.codes
          ≡ Conditions.burned K crypto config env form w)
  handle-codes =
      codes_of_outcome (handle_authorization_code K crypto config env form w) handle-Final
