-- ===== src/Users/Admin/Erasure.antt =====
-- What the deletion of a user leaves, and which users cannot be deleted.
use schlass.Base.{
  ℕ, ◌≡◌, ◌≢◌, refl, true, false, not, Option, none, some, List, [], ◌∷◌, String, ◌==◌,
  if◌then◌else◌, reply, Ends, Ends-reply, Ends-then, Ends-always, arith, Bool-cases, inl, inr, All,
  value_or,
}
use schlass.Store.Tables.{User, Entry}
use schlass.Store.Sql.{find, update_where, select_where}
use schlass.Valkey.Server.{Valkey}
use schlass.Users.Store.{has_id, get_by_id, delete}
use schlass.Auth.Env.{Lib, Config, Env, Reply, failure, no_content, World}
use schlass.Users.Admin.{
  admin_entry, reject_self_op, begin_current, enforce_last_admin_lockout, commit_two,
}
use schlass.Users.Admin.Status.{
  pseudonym, acted, scrubbed, pseudonymize_user, is_referenced, begin_as, delete_row, scrub_audit,
  delete_user,
}

-- Every audit row of the user has the pseudonym in place of the email.
abbrev pub IsScrubbed : String → List Entry → Type 0
IsScrubbed id entries = All (λ e. acted id e ≡ true → e.actor_email ≡ pseudonym id) entries

scrubbed_entry :
    (id : String) (e : Entry)
    → acted id (if acted id e then scrubbed id e else e) ≡ true
    → (if acted id e then scrubbed id e else e).actor_email ≡ pseudonym id
scrubbed_entry id e by_user = elim (Bool-cases (acted id e)) [
  | inl mine ↦ rw mine refl
  | inr other ↦ let it = rw other at by_user in cc
]

pseudonymize_user-IsScrubbed :
    (id : String) (entries : List Entry) → IsScrubbed id (pseudonymize_user id entries)
unfolding pseudonymize_user update_where
pseudonymize_user-IsScrubbed id [] = tt
pseudonymize_user-IsScrubbed id (e ∷ es) = (scrubbed_entry id e, pseudonymize_user-IsScrubbed id es)

not_found :
    (id : String) (users : List User)
    → find (has_id id) (select_where (λ u. not (has_id id u)) users) ≡ none
unfolding find select_where
not_found id [] = refl
not_found id (u ∷ us) = ground (arith, not_found id us)

module _ (K : Valkey) (lib : Lib) (config : Config) (env : Env) (raw : String) (w : World K) where
  -- Who deleted the user of the path, and what is left.
  pub record IsErased (s : World K) : Type 0 where
    pub id : String
    pub current : User
    pub parsed : lib.parse_uuid raw ≡ some id
    pub asked : env.current_user ≡ some current
    pub other : (current.id == id) ≡ false
    pub unreferenced : is_referenced id w.db.core.codes ≡ false
    pub users : s.db.core.users ≡ select_where (λ u. not (has_id id u)) w.db.core.users
    pub gone : find (has_id id) s.db.core.users ≡ none
    pub codes : s.db.recovery_codes ≡ select_where (λ c. not (c.user_id == id)) w.db.recovery_codes
    pub audit : IsScrubbed id s.db.core.audit_logs

  abbrev Final : Reply → World K → Type 0
  Final no_content s = IsErased s
  Final _ s = s.db ≡ w.db

  abbrev Begun : String → User → World K → Type 0
  Begun id current s =
      (s.db ≡ w.db)
      × (s.view ≡ w.db)
      × (env.current_user ≡ some current)
      × ((current.id == id) ≡ false)

  begin_as-Ends :
      (id : String) → Ends (λ current s. Begun id current s) Final (begin_as K lib config env id w)
  unfolding reject_self_op begin_current
  begin_as-Ends id = ground arith

  abbrev Removed : String → List Entry → World K → Type 0
  Removed id audit s =
      (s.db ≡ w.db)
      × (s.view.core.users ≡ select_where (λ u. not (has_id id u)) w.db.core.users)
      × (s.view.recovery_codes ≡ select_where (λ c. not (c.user_id == id)) w.db.recovery_codes)
      × (s.view.core.audit_logs ≡ audit)
      × (is_referenced id w.db.core.codes ≡ false)

  delete_row-Ends :
      (id : String) (s : World K)
      → s.db ≡ w.db
      → s.view ≡ w.db
      → Ends (λ _ s'. Removed id w.db.core.audit_logs s') Final (delete_row K lib config env id s)
  unfolding delete_row enforce_last_admin_lockout get_by_id delete
  delete_row-Ends id s db view = ground arith

  scrub_audit-Ends :
      (id : String) (s : World K)
      → Removed id w.db.core.audit_logs s
      → Ends
          (λ _ s'. Removed id (pseudonymize_user id w.db.core.audit_logs) s')
          Final
          (scrub_audit K lib config env id s)
  unfolding scrub_audit
  scrub_audit-Ends id s removed = ground arith

  commit_two-Ends :
      (id : String) (one two : Entry) (s : World K) (audit : List Entry)
      → Removed id audit s
      → Ends
          (λ _ s'.
            (s'.db.core.users ≡ select_where (λ u. not (has_id id u)) w.db.core.users)
            × (s'.db.recovery_codes ≡ select_where (λ c. not (c.user_id == id)) w.db.recovery_codes)
            × (s'.db.core.audit_logs ≡ two ∷ one ∷ audit))
          Final
          (commit_two K lib config env one two s)
  unfolding commit_two
  commit_two-Ends id one two s audit removed = ground arith

  not_acted :
      (id event : String) (current : User)
      → (current.id == id) ≡ false
      → acted id (admin_entry event current id env.ip) ≡ true
      → (admin_entry event current id env.ip).actor_email ≡ pseudonym id
  not_acted id event current other mine = cc

  parsed-Ends :
      (o : Option String) (status : ℕ) (code message : String)
      → Ends
          (λ id s. (s ≡ w) × (o ≡ some id))
          Final
          (value_or {S = World K} o (failure status code message) w)
  parsed-Ends none status code message = refl
  parsed-Ends (some id) status code message = (refl, refl)

  delete_user-Final : Ends {A = ⊥} (λ _ _. ⊥) Final (delete_user K lib config env raw w)
  unfolding delete_user reject_self_op begin_current
  delete_user-Final =
      Ends-then {A = String} (λ id s. (s ≡ w) × (lib.parse_uuid raw ≡ some id)) Final _ _
        (parsed-Ends (lib.parse_uuid raw) _ _ _)
        λ id s (same, parsed). rw same (
          Ends-then {A = User} (λ current s. Begun id current s) Final _ _ (begin_as-Ends id)
            λ current s₁ (db, view, asked, other).
              Ends-then {A = Unit {0}} (λ _ s. Removed id w.db.core.audit_logs s) Final _ _
                (delete_row-Ends id s₁ db view)
                λ _ s₂ removed.
                  Ends-then {A = Unit {0}}
                    (λ _ s. Removed id (pseudonymize_user id w.db.core.audit_logs) s) Final _ _
                    (scrub_audit-Ends id s₂ removed)
                    λ _ s₃ (db₃, users, codes, audit, unreferenced).
                      Ends-then {A = Unit {0}}
                        (λ _ s'.
                          (s'.db.core.users ≡ select_where (λ u. not (has_id id u)) w.db.core.users)
                          × (s'.db.recovery_codes
                              ≡ select_where (λ c. not (c.user_id == id)) w.db.recovery_codes)
                          × (s'.db.core.audit_logs
                              ≡ admin_entry "user.deleted" current id env.ip
                                ∷ admin_entry "user.audit_pseudonymized" current id env.ip
                                ∷ pseudonymize_user id w.db.core.audit_logs))
                        Final _ _
                        (commit_two-Ends id _ _ s₃ _ (db₃, users, codes, audit, unreferenced))
                        λ _ s₄ (rows, left, entries). record {
                          id = id;
                          current = current;
                          parsed = parsed;
                          asked = asked;
                          other = other;
                          unreferenced = unreferenced;
                          users = rows;
                          gone = rw rows (not_found id w.db.core.users);
                          codes = left;
                          audit = rw entries (
                            not_acted id "user.deleted" current other,
                            (
                              not_acted id "user.audit_pseudonymized" current other,
                              pseudonymize_user-IsScrubbed id w.db.core.audit_logs,
                            ),
                          );
                        })

  -- A user is deleted only by another user, and only if no authorization code refers to the user. The row and the recovery codes
  -- are then gone, the other rows are as they were, and every audit row of which the user was the actor has a pseudonym in
  -- place of the email, the rows of the deletion included.
  pub delete_user-IsErased :
      (s : World K) → delete_user K lib config env raw w ≡ (s, reply no_content) → IsErased s
  delete_user-IsErased s e = Ends-reply (λ _ _. ⊥) Final _ e delete_user-Final

  -- A row that is referred to is not deleted, so that the handler replies.
  delete_row-Kept :
      (id : String) (s : World K)
      → is_referenced id w.db.core.codes ≡ true
      → s.db ≡ w.db
      → s.view ≡ w.db
      → Ends (λ _ _. ⊥) (λ _ s'. s'.db ≡ w.db) (delete_row K lib config env id s)
  unfolding delete_row enforce_last_admin_lockout get_by_id delete
  delete_row-Kept id s referenced db view = ground arith

  begin_as-Kept :
      (id : String)
      → Ends (λ current s. Begun id current s) (λ _ s. s.db ≡ w.db) (begin_as K lib config env id w)
  unfolding reject_self_op begin_current
  begin_as-Kept id = ground arith

  delete_user-Kept :
      (id : String)
      → lib.parse_uuid raw ≡ some id
      → is_referenced id w.db.core.codes ≡ true
      → Ends {A = ⊥} (λ _ _. ⊥) (λ _ s. s.db ≡ w.db) (delete_user K lib config env raw w)
  unfolding delete_user
  delete_user-Kept id known referenced =
      rw (known, delete_user)
        (Ends-then {A = User} (λ current s. Begun id current s) (λ _ s. s.db ≡ w.db) _ _
          (begin_as-Kept id)
          λ current s₁ (db, view, asked, other).
            Ends-then {A = Unit {0}} (λ _ _. ⊥) (λ _ s. s.db ≡ w.db) _ _
              (delete_row-Kept id s₁ referenced db view) λ _ s₂ never. absurd never)

  -- A user with an authorization code, used or expired, is not deleted: the reply is no success, and nothing in the
  -- database changes.
  pub delete_user-referenced :
      (id : String)
      → lib.parse_uuid raw ≡ some id
      → is_referenced id w.db.core.codes ≡ true
      → ((delete_user K lib config env raw w).0.db ≡ w.db)
        × ((delete_user K lib config env raw w).1 ≢ reply no_content)
  delete_user-referenced id known referenced = (
    Ends-always {S = World K} (λ s. s.db ≡ w.db) (delete_user K lib config env raw w)
        (delete_user-Kept id known referenced),
    λ e.
        let it =
          delete_user-IsErased (delete_user K lib config env raw w).0
            (λ i. ((delete_user K lib config env raw w).0, e i)) in
        let parsed = it.parsed in
        let same : it.id ≡ id = cc in
        let free = it.unreferenced in let taken = rw same at free in cc,
  )
