-- ===== src/Token/CodeGrant/Replay.antt =====
-- A code is exchanged for tokens at most once.
use schlass.Base.{ℕ, ◌≤◌, ◌≡◌, ◌≢◌, inl, inr, List, [], ◌∷◌, String, All, reply}
use schlass.AuthCode.SingleUse.{IsSpent, consume_once-IsSpent, consume_once-consume_once}
use schlass.Valkey.Server.{Valkey}
use schlass.Token.Env.{Crypto, Config, Form, Env, TokenResponse, tokens, World}
use schlass.Token.CodeGrant.{handle_authorization_code}
use schlass.Token.CodeGrant.Guarantee.{handle_authorization_code-IsRedeemed, handle-codes}

module _ (K : Valkey) (crypto : Crypto) (config : Config) where
  -- Requests served one after the other from a world: none that presents a code with this hash is
  -- answered with tokens.
  abbrev pub NeverIssues : String → List (Env × Form) → World K → Type 0
  NeverIssues hash [] w = Unit
  NeverIssues hash ((env, form) ∷ rest) w =
      (crypto.sha256hex form.code ≡ hash
        → (s : World K) (t : TokenResponse)
        → handle_authorization_code K crypto config env form w ≢ (s, reply (tokens t)))
      × NeverIssues hash rest (handle_authorization_code K crypto config env form w).0

  handle-IsSpent :
      (env : Env) (form : Form) (w : World K) (now : ℕ) (hash : String)
      → IsSpent now hash w.db.codes
      → IsSpent now hash (handle_authorization_code K crypto config env form w).0.db.codes
  handle-IsSpent env form w now hash spent = elim (handle-codes K crypto config env form w) [
    | inl same ↦ rw same spent
    | inr burned ↦
        rw burned
          (consume_once-IsSpent now hash w.db.codes env.sql_now (crypto.sha256hex form.code) spent)
  ]

  spent-NeverIssues :
      (now : ℕ) (hash : String) (requests : List (Env × Form)) (w : World K)
      → All (λ r. now ≤ r.0.sql_now) requests
      → IsSpent now hash w.db.codes
      → NeverIssues hash requests w
  spent-NeverIssues now hash [] w h spent = tt
  spent-NeverIssues now hash ((env, form) ∷ rest) w (h, hs) spent = (
    λ same s t e.
        let reason = handle_authorization_code-IsRedeemed K crypto config env form w s t e in
        let gone = spent env.sql_now h in let taken = rw same at reason.consumed in cc,
    spent-NeverIssues now hash rest (handle_authorization_code K crypto config env form w).0 hs
        (handle-IsSpent env form w now hash spent),
  )

  -- Once a code was exchanged for tokens, no later request that presents it (or another code of the
  -- same hash) is answered with tokens, however many requests are served in between, with any forms.
  pub exchanged_at_most_once :
      (env : Env) (form : Form) (w s : World K) (t : TokenResponse) (requests : List (Env × Form))
      → handle_authorization_code K crypto config env form w ≡ (s, reply (tokens t))
      → All (λ r. env.sql_now ≤ r.0.sql_now) requests
      → NeverIssues (crypto.sha256hex form.code) requests s
  exchanged_at_most_once env form w s t requests e later =
      spent-NeverIssues env.sql_now (crypto.sha256hex form.code) requests s later λ now h.
        rw (handle_authorization_code-IsRedeemed K crypto config env form w s t e).spent
          (consume_once-consume_once env.sql_now now (crypto.sha256hex form.code) w.db.codes h)
