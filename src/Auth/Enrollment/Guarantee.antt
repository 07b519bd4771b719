-- ===== src/Auth/Enrollment/Guarantee.antt =====
-- When an enrollment is completed, and what that leaves.
use schlass.Base.{
  ◌∙◌, ◌++◌, ◌≡◌, refl, Bool, true, false, Option, none, some, List, [], ◌∷◌, String, ◌==◌, nat_eq,
  length, reply, Ends, Ends-then, Ends-weaken, Ends-reply, go_on, arith, Option-cases, inl, inr,
  Result, ok, err, ◌>>=◌,
}
use schlass.Store.Tables.{User}
use schlass.Valkey.Keys.{enroll_key}
use schlass.Valkey.Server.{Valkey, found, missing, failed, del}
use schlass.Valkey.Server
use schlass.Valkey.Hashes.{Hashes}
use schlass.Session.Store.{SessionError}
use schlass.Users.Store.{get_by_id, set_totp_enrolled, set_last_login_at}
use schlass.Auth.RecoveryCodes
use schlass.Auth.Challenge.{cookie_value, totp_secret_aad}
use schlass.Auth.Env.{Lib, Config, Env, Reply, enrolled, UserDto, World}
use schlass.Auth.Enrollment.Stored.{enrolled_users, two_updates, new_codes, all_inserted}
use schlass.Auth.Enrollment.Complete.{
  with_ids, state_of, load_enrollment, commit_enrollment, session_started, close_enrollment,
  post_enrollment_complete,
}

module _ (K : Valkey) (H : Hashes K) (lib : Lib) (config : Config) (env : Env) (body : Option Bool)
    (w : World K) where
  -- Why an enrollment is completed, and what that leaves.
  pub record IsEnrolled (session : Option String) (s : World K) : Type 0 where
    pub token : String
    pub fields : String → String
    pub uid : String
    pub encrypted : String
    pub hashes : List String
    pub sent : cookie_value env.enroll_cookie ≡ some token
    pub acknowledged : body ≡ some true
    pub held : H.hgetall (enroll_key token) w.kv ≡ found fields
    pub verified : (fields "recovery_hashes" == "") ≡ false
    pub named : lib.parse_uuid (fields "user_id") ≡ some uid
    pub read : lib.unmarshal (fields "recovery_hashes") ≡ some hashes
    pub ten : nat_eq (length hashes) 10 ≡ true
    pub bound : lib.encrypt (fields "secret_base32") (totp_secret_aad uid) ≡ some encrypted
    pub users :
        s.db.core.users
        ≡ enrolled_users env (fields "session_authed" == "1") uid encrypted w.db.core.users
    pub codes : s.db.recovery_codes ≡ w.db.recovery_codes ++ new_codes env uid 0 hashes
    pub own_session : (fields "session_authed" == "1") ≡ true → session ≡ none

  abbrev Final : Reply → World K → Type 0
  Final (enrolled session dto to) s = IsEnrolled session s
  Final _ s = Unit {0}

  abbrev Loaded : (String → String) → String × (String × List String) → World K → Type 0
  Loaded fields (uid, (encrypted, hashes)) s =
      (s ≡ w)
      × ((fields "recovery_hashes" == "") ≡ false)
      × (lib.parse_uuid (fields "user_id") ≡ some uid)
      × (lib.unmarshal (fields "recovery_hashes") ≡ some hashes)
      × (nat_eq (length hashes) 10 ≡ true)
      × (lib.encrypt (fields "secret_base32") (totp_secret_aad uid) ≡ some encrypted)

  load_enrollment-Ends :
      (fields : String → String)
      → Ends (Loaded fields) Final (load_enrollment K H lib config env fields w)
  unfolding load_enrollment
  load_enrollment-Ends fields = ground arith

  abbrev Stored : Bool → String → String → List String → World K → Type 0
  Stored authed uid encrypted hashes s =
      (s.db.core.users ≡ enrolled_users env authed uid encrypted w.db.core.users)
      × (s.db.recovery_codes
          ≡ RecoveryCodes.insert env.sql_now uid (with_ids env.ids 0 hashes) w.db.recovery_codes)

  commit_enrollment-Ends :
      (authed : Bool) (uid encrypted : String) (hashes : List String)
      → Ends
          (λ _ s. Stored authed uid encrypted hashes s)
          Final
          (commit_enrollment K H lib config env authed uid encrypted hashes w)
  unfolding commit_enrollment set_totp_enrolled set_last_login_at get_by_id
  commit_enrollment-Ends true uid encrypted hashes = ground arith
  commit_enrollment-Ends false uid encrypted hashes =
      let both = two_updates env uid encrypted w.db.core.users in ground arith

  -- The last phase changes no table, and starts no session where there is one.
  abbrev Closed : Bool → World K → Reply → World K → Type 0
  Closed authed s (enrolled session dto to) s' = (s'.db ≡ s.db) × (authed ≡ true → session ≡ none)
  Closed authed s _ s' = Unit {0}

  started-Closed :
      (u : User) (path : String) (t s : World K) (made : K.State × Result SessionError String)
      → t.db ≡ s.db
      → Ends {A = ⊥} (λ _ _. ⊥) (Closed false s) (session_started K H lib config env u path t made)
  started-Closed u path t s (kv, ok session) same = (same, λ (never : false ≡ true). cc)
  started-Closed u path t s (kv, err e) same = tt

  close_enrollment-Closed :
      (authed : Bool) (token : String) (u : User) (path : String) (s : World K)
      → Ends {A = ⊥}
          (λ _ _. ⊥)
          (Closed authed s)
          (close_enrollment K H lib config env authed token u path s)
  unfolding close_enrollment
  close_enrollment-Closed true token u path s = (refl, λ _. refl)
  close_enrollment-Closed false token u path s =
      started-Closed u path (record s { kv = (K.pipe (del (enroll_key token) ∷ []) s.kv).0 }) s _
        refl

  Closed-Final :
      (token : String) (fields : String → String) (uid encrypted : String) (hashes : List String)
      → cookie_value env.enroll_cookie ≡ some token
      → body ≡ some true
      → H.hgetall (enroll_key token) w.kv ≡ found fields
      → Loaded fields (uid, (encrypted, hashes)) w
      → (s : World K) → Stored (fields "session_authed" == "1") uid encrypted hashes s
      → (r : Reply) (s' : World K) → Closed (fields "session_authed" == "1") s r s'
      → Final r s'
  Closed-Final token fields uid encrypted hashes sent acknowledged held
        (_, verified, named, read, ten, bound) s (users, codes) (enrolled session dto to) s'
        (same, own) =
      record {
        token = token;
        fields = fields;
        uid = uid;
        encrypted = encrypted;
        hashes = hashes;
        sent = sent;
        acknowledged = acknowledged;
        held = held;
        verified = verified;
        named = named;
        read = read;
        ten = ten;
        bound = bound;
        users = rw same users;
        codes = rw same codes ∙ all_inserted env uid 0 hashes w.db.recovery_codes;
        own_session = own;
      }
  Closed-Final token fields uid encrypted hashes sent acknowledged held loaded s stored _ s' h = tt

  fields-Final :
      (token : String) (fields : String → String)
      → cookie_value env.enroll_cookie ≡ some token
      → body ≡ some true
      → H.hgetall (enroll_key token) w.kv ≡ found fields
      → Ends {A = ⊥}
          (λ _ _. ⊥)
          Final
          (go_on (load_enrollment K H lib config env fields w) λ state.
            commit_enrollment K H lib config env
              (fields "session_authed" == "1")
              state.0
              state.1.0
              state.1.1
            >>= λ u.
                close_enrollment K H lib config env
                  (fields "session_authed" == "1")
                  token
                  u
                  (fields "return_to"))
  fields-Final token fields sent acknowledged held =
      Ends-then {A = String × (String × List String)} (Loaded fields) Final _ _
        (load_enrollment-Ends fields)
        λ (uid, (encrypted, hashes)) s (same, verified, named, read, ten, bound). rw same (
          Ends-then {A = User}
            (λ _ s. Stored (fields "session_authed" == "1") uid encrypted hashes s) Final _ _
            (commit_enrollment-Ends (fields "session_authed" == "1") uid encrypted hashes)
            λ u s₁ stored.
              Ends-weaken (λ _ _. ⊥) (Closed (fields "session_authed" == "1") s₁) Final _
                (Closed-Final token fields uid encrypted hashes sent acknowledged held
                  (refl, verified, named, read, ten, bound) s₁ stored)
                (close_enrollment-Closed (fields "session_authed" == "1") token u
                  (fields "return_to") s₁))

  read-Final :
      (token : String) (o : Server.Reply (String → String))
      → cookie_value env.enroll_cookie ≡ some token
      → body ≡ some true
      → H.hgetall (enroll_key token) w.kv ≡ o
      → Ends {A = ⊥}
          (λ _ _. ⊥)
          Final
          (go_on (state_of K H lib config env o w) λ fields s.
            go_on (load_enrollment K H lib config env fields s) λ state.
              commit_enrollment K H lib config env
                (fields "session_authed" == "1")
                state.0
                state.1.0
                state.1.1
              >>= λ u.
                  close_enrollment K H lib config env
                    (fields "session_authed" == "1")
                    token
                    u
                    (fields "return_to"))
  read-Final token (found fields) sent acknowledged held =
      fields-Final token fields sent acknowledged held
  read-Final token missing sent acknowledged held = tt
  read-Final token failed sent acknowledged held = tt

  complete-Final :
      Ends {A = ⊥} (λ _ _. ⊥) Final (post_enrollment_complete K H lib config env body w)
  unfolding post_enrollment_complete
  complete-Final = elim (Option-cases (cookie_value env.enroll_cookie)) [
    | inl missing_cookie ↦ rw (missing_cookie, post_enrollment_complete) tt
    | inr (token, sent) ↦ elim (Option-cases body) [
      | inl malformed ↦ rw (sent, malformed, post_enrollment_complete) tt
      | inr (false, refused) ↦ rw (sent, refused, post_enrollment_complete) tt
      | inr (true, acknowledged) ↦
          let is : post_enrollment_complete K H lib config env body w
              ≡ go_on (state_of K H lib config env (H.hgetall (enroll_key token) w.kv) w)
                  (λ fields s. go_on (load_enrollment K H lib config env fields s) λ state.
                    commit_enrollment K H lib config env (fields "session_authed" == "1") state.0
                      state.1.0 state.1.1
                    >>= λ u.
                        close_enrollment K H lib config env (fields "session_authed" == "1") token u
                          (fields "return_to")) =
            rw (sent, acknowledged, post_enrollment_complete) refl in
          rw is (read-Final token (H.hgetall (enroll_key token) w.kv) sent acknowledged refl)
    ]
  ]

  -- If an enrollment is answered as completed, the cookie named a state that HGETALL gives, with a user's id that parses and ten
  -- hashes of recovery codes; and the body acknowledged the codes. The row of that user then has the secret of the state,
  -- encrypted for the user, and the time of the enrollment, the other rows are as they were, and a row is added, unused, for
  -- each of the hashes. The row has the time of a login too unless the state is that of a signed-in user, for whom no session is started.
  pub post_enrollment_complete-IsEnrolled :
      (s : World K) (session : Option String) (dto : UserDto) (to : String)
      → post_enrollment_complete K H lib config env body w ≡ (s, reply (enrolled session dto to))
      → IsEnrolled session s
  post_enrollment_complete-IsEnrolled s session dto to e =
      Ends-reply (λ _ _. ⊥) Final _ e complete-Final
