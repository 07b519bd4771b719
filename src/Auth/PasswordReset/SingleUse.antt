-- ===== src/Auth/PasswordReset/SingleUse.antt =====
-- A reset link resets a password at most once.
use schlass.Base.{
  ℕ, ◌≡◌, inl, inr, sym, true, false, Option, some, List, ◌≢◌, reply, Ends, ap, [], ◌∷◌, String,
  Outcome, next, ◌==◌, if◌then◌else◌, arith, eq_iff, Bool-cases,
}
use schlass.Store.Sql.{find, update_where}
use schlass.Valkey.Server.{Valkey}
use schlass.Auth.ResetTokens.{ResetToken, is_null, get_by_token, mark_used}
use schlass.Auth.Env.{Lib, Config, Env, Reply, reset_done, World}
use schlass.Auth.PasswordReset.{ConfirmRequest, is_spent, post_confirm}
use schlass.Auth.PasswordReset.Guarantee.{post_confirm-IsConfirmed, Final, handle-Final}

-- The token of this hash was used.
abbrev pub IsUsed : String → List ResetToken → Type 0
IsUsed hash tokens =
    (t : ResetToken) × (find (λ r. r.token_hash == hash) tokens ≡ some t)
    × (is_null t.used_at ≡ false)

abbrev burned : ℕ → String → ResetToken → ResetToken
burned now id t = if t.id == id then record t { used_at = some now } else t

burned-hash : (now : ℕ) (id : String) (t : ResetToken) → (burned now id t).token_hash ≡ t.token_hash
burned-hash now id t = ground arith

burned-used :
    (now : ℕ) (id : String) (t : ResetToken)
    → is_null t.used_at ≡ false
    → is_null (burned now id t).used_at ≡ false
burned-used now id t used = ground arith

find-burned :
    (hash id : String) (now : ℕ) (tokens : List ResetToken) (t : ResetToken)
    → find (λ r. r.token_hash == hash) tokens ≡ some t
    → find (λ r. r.token_hash == hash) (mark_used now id tokens) ≡ some (burned now id t)
unfolding find mark_used update_where
find-burned hash id now [] t e = cc
find-burned hash id now (r ∷ tokens) t e = elim (Bool-cases (r.token_hash == hash)) [
  | inl mine ↦
      let is : r ≡ t = let it = rw mine at e in ground arith in
      rw (burned-hash now id r, mine) (ap (λ x. some (burned now id x)) is)
  | inr other ↦
      let later = find-burned hash id now tokens t (rw other at e) in
      rw (burned-hash now id r, other) later
]

mark_used-IsUsed :
    (hash id : String) (now : ℕ) (tokens : List ResetToken)
    → IsUsed hash tokens
    → IsUsed hash (mark_used now id tokens)
mark_used-IsUsed hash id now tokens (t, known, used) =
    (burned now id t, find-burned hash id now tokens t known, burned-used now id t used)

-- A token that is found, and whose id is marked, is used.
mark_used-found :
    (hash : String) (now : ℕ) (tokens : List ResetToken) (t : ResetToken)
    → find (λ r. r.token_hash == hash) tokens ≡ some t
    → IsUsed hash (mark_used now t.id tokens)
mark_used-found hash now tokens t known =
    (burned now t.id t, find-burned hash t.id now tokens t known, ground (arith, eq_iff t.id t.id))

module _ (K : Valkey) (lib : Lib) (config : Config) where
  -- A confirmation: what it starts from, and its body.
  abbrev pub Attempt : Type 0
  Attempt = Env × Option ConfirmRequest

  -- What confirmations, one after the other, leave.
  unfoldable pub confirm_all : List Attempt → World K → World K
  confirm_all [] w = w
  confirm_all ((env, body) ∷ rest) w = confirm_all rest (post_confirm K lib config env body w).0

  Final-IsUsed :
      (env : Env) (body : Option ConfirmRequest) (w : World K) (hash : String) (r : Reply)
      (s : World K)
      → Final K lib config env body w r s
      → IsUsed hash w.db.reset_tokens
      → IsUsed hash s.db.reset_tokens
  unfolding mark_used
  Final-IsUsed env body w hash (reset_done uid) s h used =
      rw h.tokens (mark_used-IsUsed hash h.token.id env.sql_now w.db.reset_tokens used)
  Final-IsUsed env body w hash r s (kv, users, tokens) used = rw tokens used

  rest_IsUsed :
      (env : Env) (body : Option ConfirmRequest) (w : World K) (hash : String)
      (m : World K × Outcome Reply ⊥)
      → Ends (λ _ _. ⊥) (Final K lib config env body w) m
      → IsUsed hash w.db.reset_tokens
      → IsUsed hash m.0.db.reset_tokens
  rest_IsUsed env body w hash (s, next a) h used = absurd a
  rest_IsUsed env body w hash (s, reply r) h used = Final-IsUsed env body w hash r s h used

  -- A used token stays used, whatever is asked and whatever fails.
  confirm_all-IsUsed :
      (attempts : List Attempt) (w : World K) (hash : String)
      → IsUsed hash w.db.reset_tokens
      → IsUsed hash (confirm_all attempts w).db.reset_tokens
  unfolding confirm_all
  confirm_all-IsUsed [] w hash used = used
  confirm_all-IsUsed ((env, body) ∷ rest) w hash used =
      confirm_all-IsUsed rest (post_confirm K lib config env body w).0 hash (
        rest_IsUsed env body w hash (post_confirm K lib config env body w)
          (handle-Final K lib config env body w) used)

  -- A success uses up the token of its request.
  success-IsUsed :
      (env : Env) (req : ConfirmRequest) (w s : World K) (uid : String)
      → post_confirm K lib config env (some req) w ≡ (s, reply (reset_done uid))
      → IsUsed (lib.hmac_token req.token) s.db.reset_tokens
  unfolding get_by_token mark_used
  success-IsUsed env req w s uid e =
      let it = post_confirm-IsConfirmed K lib config env (some req) w s uid e in
      let same : req ≡ it.req = let asked = it.asked in cc in
      let known : find (λ r. r.token_hash == lib.hmac_token req.token) w.db.reset_tokens
          ≡ some it.token =
        let known = it.known in rw same known in
      rw it.tokens
        (mark_used-found (lib.hmac_token req.token) env.sql_now w.db.reset_tokens it.token known)

  used_is_spent :
      (now : ℕ) (hash : String) (tokens : List ResetToken) (t : ResetToken)
      → IsUsed hash tokens
      → find (λ r. r.token_hash == hash) tokens ≡ some t
      → is_spent now t ≡ true
  used_is_spent now hash tokens t (u, known, used) found =
      let same : u ≡ t = cc in rw (sym same) (ground arith)

  -- After a confirmation that reset a password, no later one with the same token does, whatever confirmations come between,
  -- also ones that fail half-way.
  pub confirmed_at_most_once :
      (first later : Env) (req : ConfirmRequest) (w s s' : World K) (uid uid' : String)
      (between : List Attempt)
      → post_confirm K lib config first (some req) w ≡ (s, reply (reset_done uid))
      → post_confirm K lib config later (some req) (confirm_all between s)
        ≢ (s', reply (reset_done uid'))
  unfolding get_by_token
  confirmed_at_most_once first later req w s s' uid uid' between e again =
      let used =
        confirm_all-IsUsed between s (lib.hmac_token req.token)
          (success-IsUsed first req w s uid e) in
      let it =
        post_confirm-IsConfirmed K lib config later (some req) (confirm_all between s) s' uid'
          again in
      let same : req ≡ it.req = let asked = it.asked in cc in
      let known : find (λ r. r.token_hash == lib.hmac_token req.token)
            (confirm_all between s).db.reset_tokens
          ≡ some it.token =
        let known = it.known in rw same known in
      let spent = used_is_spent later.now (lib.hmac_token req.token) _ it.token used known in
      let unspent = it.unspent in cc
