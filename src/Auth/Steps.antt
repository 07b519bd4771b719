-- ===== src/Auth/Steps.antt =====
-- The steps that the handlers of internal/auth share: transactions, audit rows, updates of a user.
use schlass.Base.{
  Bool, true, false, Option, none, some, List, ◌∷◌, String, if◌then◌else◌, Result, ok, err, Outcome,
  Ends, ◌≡◌, refl, next, reply, Handler, respond, give,
}
use schlass.Store.Tables.{Entry, User}
use schlass.Valkey.Server.{Valkey}
use schlass.Session.Store.{SessionError}
use schlass.Users.Store.{UserError}
use schlass.Auth.Env.{Tables, Call, begin_tx, commit, Env, Reply, failure, World}

abbrev pub internal_error : Reply
internal_error = failure 500 "INTERNAL_ERROR" "An unexpected error occurred."

abbrev pub not_authenticated : Reply
not_authenticated = failure 401 "INVALID_SESSION" "Not authenticated."

abbrev pub invalid_body : Reply
invalid_body = failure 400 "VALIDATION_ERROR" "Invalid request body."

-- The Entry of an event whose target is a user.
abbrev pub user_entry :
    (event : String) (actor : Option String) (email user_id ip outcome : String) → Entry
user_entry event actor email user_id ip outcome = record {
  event_type = event;
  actor_id = actor;
  actor_email = email;
  target_type = "user";
  target_id = user_id;
  client_id = none;
  ip_address = ip;
  outcome = outcome;
  family_id = none;
}

-- The Entry of an event of which the user is the actor and the target.
abbrev pub own_entry : (event : String) → User → (ip outcome : String) → Entry
own_entry event u ip outcome = user_entry event (some u.id) u.email u.id ip outcome

abbrev pub with_users : List User → Tables → Tables
with_users users t = record t { core = record t.core { users = users } }

-- audit.Logger.Log: an INSERT.
abbrev pub with_entry : Entry → Tables → Tables
with_entry e t = record t { core = record t.core { audit_logs = e ∷ t.core.audit_logs } }

abbrev pub is_enrolled : User → Bool
is_enrolled u = elim u.totp_enrolled_at [ none ↦ false | some at ↦ true ]

-- The answer of VerifyPassword, where a wrong password ends the request.
abbrev pub verified_or : Reply → Reply → Result (Unit {0}) Bool → Option Reply
verified_or broken wrong (err e) = some broken
verified_or broken wrong (ok true) = none
verified_or broken wrong (ok false) = some wrong

-- The request ends with the reply, if there is one.
abbrev pub unless : {S : Type 0} → Option Reply → S → S × Outcome Reply (Unit {0})
unless none w = (w, next tt)
unless (some r) w = (w, reply r)

module _ (K : Valkey) (env : Env) where
  abbrev pub Step : Type 0 → Type 0
  Step A = Handler (World K) Reply A

  -- pool.Begin
  abbrev pub begin_transaction : Reply → Step (Unit {0})
  begin_transaction failed w =
      if env.fails begin_tx then (w, reply failed) else (record w { view = w.db }, next tt)

  -- tx.Commit
  abbrev pub commit_transaction : Reply → Step (Unit {0})
  commit_transaction failed w =
      if env.fails commit then (w, reply failed) else (record w { db = w.view }, next tt)

  -- auditStore.Log in the transaction, where an error ends the request.
  abbrev pub log : Call → Entry → Reply → Step (Unit {0})
  log call entry failed w =
      if env.fails call
      then (w, reply failed)
      else (record w { view = with_entry entry w.view }, next tt)

  -- auditStore.Log on the pool, whose error is only logged.
  abbrev pub log_best_effort : Call → Entry → World K → World K
  log_best_effort call entry w =
      if env.fails call then w else record w { db = with_entry entry w.db }

  -- An update of the users in the transaction, where any error ends the request.
  abbrev pub set_users : Reply → List User × Result UserError (Unit {0}) → Step (Unit {0})
  set_users failed (users, ok done) w = (record w { view = with_users users w.view }, next tt)
  set_users failed (users, err e) w = (w, reply failed)

  -- The answer of a query for a user, where any error ends the request.
  abbrev pub user_or : Reply → Result UserError User → Step User
  user_or failed (ok u) = give u
  user_or failed (err e) = respond failed

  -- What a session that was created is answered with.
  abbrev pub with_session :
      (String → Reply)
      → World K
      → K.State × Result SessionError String
      → {A : Type 0} → World K × Outcome Reply A
  with_session answer w (s, ok token) = (record w { kv = s }, reply (answer token))
  with_session answer w (s, err e) = (record w { kv = s }, reply internal_error)

  -- How the start of a session ends, by the answer of the store.
  pub with_session-Ends :
      (answer : String → Reply) (s : World K) (made : K.State × Result SessionError String)
      (Q : Reply → World K → Type 0)
      → ((kv : K.State) (token : String)
          → made ≡ (kv, ok token)
          → Q (answer token) (record s { kv = kv }))
      → ((kv : K.State) → Q internal_error (record s { kv = kv }))
      → Ends {A = ⊥} (λ _ _. ⊥) Q (with_session answer s made)
  with_session-Ends answer s (kv, ok token) Q good bad = good kv token refl
  with_session-Ends answer s (kv, err e) Q good bad = bad kv
