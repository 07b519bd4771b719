-- ===== src/Bearer/Acceptance.antt =====
-- When a bearer token is accepted.
use schlass.Base.{
  ℕ, ◌+◌, ◌*◌, ◌≤◌, ◌<◌, ◌≡◌, ◌≢◌, refl, inl, inr, Bool, true, false, not, Option, none, some, List,
  [], ◌∷◌, String, ◌==◌, All, Result, ok, err, next, Ends, Ends-go_on, Ends-next, Ends-ensure,
  Ends-value_or, arith, eq_iff, Bool-cases, Option-cases,
}
use schlass.Store.Tables.{Db, User, SigningKey}
use schlass.Store.Sql.{find, select_where}
use schlass.SigningKeys.{is_publishable, goes_before, insert_ordered, order, list_publishable}
use schlass.Valkey.Server.{Valkey}
use schlass.Session.RevokeBefore.{
  CutoffError, cutoff_failed, revoke_before_get, revoke_before_client_get, revoke_before_set_now,
  revoke_before_get-set_now,
}
use schlass.Oidc.Claims.{unix, second, AccessTokenClaims}
use schlass.Oidc.Jwt.{parse_and_verify_access_token, IsVerified, parse_and_verify_sound}
use schlass.Bearer.{
  Refusal, extract_bearer_token, BearerEnv, clock_skew_secs, lookup_key, not_before_cutoff,
  check_claims, active_subject, load_subject, check_cutoffs, bearer_auth,
}

abbrev ArePublishable : List SigningKey → Type 0
ArePublishable = All (λ k. is_publishable k ≡ true)

insert_ordered-ArePublishable :
    (k : SigningKey) (keys : List SigningKey)
    → is_publishable k ≡ true
    → ArePublishable keys
    → ArePublishable (insert_ordered k keys)
unfolding insert_ordered
insert_ordered-ArePublishable k [] h hs = (h, tt)
insert_ordered-ArePublishable k (j ∷ js) h (hj, hs) = elim (Bool-cases (goes_before j k)) [
  | inl first ↦ rw first (hj, insert_ordered-ArePublishable k js h hs)
  | inr second ↦ rw second (h, (hj, hs))
]

order-ArePublishable : (keys : List SigningKey) → ArePublishable keys → ArePublishable (order keys)
unfolding order
order-ArePublishable [] h = tt
order-ArePublishable (k ∷ keys) (h, hs) =
    insert_ordered-ArePublishable k (order keys) h (order-ArePublishable keys hs)

selected : (keys : List SigningKey) → ArePublishable (select_where is_publishable keys)
unfolding select_where
selected [] = tt
selected (k ∷ keys) = elim (Bool-cases (is_publishable k)) [
  | inl yes_it_is ↦ rw yes_it_is (yes_it_is, selected keys)
  | inr not_it ↦ rw not_it (selected keys)
]

find_All :
    (p : SigningKey → Bool) (keys : List SigningKey) {k : SigningKey}
    → ArePublishable keys
    → find p keys ≡ some k
    → is_publishable k ≡ true
unfolding find
find_All p [] h e = cc
find_All p (j ∷ keys) {k = k} (h, hs) e = elim (Bool-cases (p j)) [
  | inl it ↦ let same : j ≡ k = let f = rw it at e in ground arith in rw same at h
  | inr other ↦ find_All p keys hs (rw other at e)
]

-- The key that a token is verified with is active or retiring.
pub lookup_key_published :
    (fails : Bool) (keys : List SigningKey) (kid pem : String)
    → lookup_key fails keys kid ≡ some pem
    → (k : SigningKey) × (k.public_key_pem ≡ pem) × (is_publishable k ≡ true)
unfolding lookup_key list_publishable
lookup_key_published true keys kid pem e = cc
lookup_key_published false keys kid pem e =
    elim (Option-cases (find (λ k. k.id == kid) (order (select_where is_publishable keys)))) [
      | inl missing ↦ absurd (let never = rw missing at e in cc)
      | inr (k, there) ↦ (
        k,
        let it = rw there at e in ground arith,
        find_All (λ k. k.id == kid) (order (select_where is_publishable keys))
            (order-ArePublishable _ (selected keys)) there,
      )
    ]

module _ (K : Valkey) (env : BearerEnv) (db : Db) (kv : K.State) where
  -- The claims are within their limits.
  abbrev pub AreCurrent : AccessTokenClaims → Type 0
  AreCurrent c =
      (c.issuer ≡ env.issuer)
      × (c.audience ≢ "")
      × (0 < c.expires → unix env.now ≤ c.expires + clock_skew_secs)
      × (0 < c.not_before → c.not_before ≤ unix env.now + clock_skew_secs)

  -- The subject is an active user.
  abbrev pub IsSubject : AccessTokenClaims → User → Type 0
  IsSubject c u =
      (u.status ≡ "active")
      × ((uid : String) × (env.parse_uuid c.subject ≡ some uid)
          × (find (λ u. u.id == uid) db.users ≡ some u))

  -- No cutoff that can be read is later than the token.
  abbrev pub IsAfterCutoffs : AccessTokenClaims → User → Type 0
  IsAfterCutoffs c u =
      ((t : ℕ) → revoke_before_get K u.id kv ≡ ok t → t ≤ c.issued_at)
      × ((t : ℕ) → revoke_before_client_get K c.audience kv ≡ ok t → t ≤ c.issued_at)

  abbrev pub IsAccepted : (header : String) → User → AccessTokenClaims → Type 0
  IsAccepted header u c =
      IsVerified env.parse_jwt env.verify_rs256 (lookup_key env.keys_fail db.keys)
        (extract_bearer_token header) c
      × AreCurrent c
      × IsSubject c u
      × IsAfterCutoffs c u

  check_claims-Ends :
      (c : AccessTokenClaims)
      → Ends (λ _ _. AreCurrent c) (λ _ _. Unit {0}) (check_claims K env db kv c tt)
  unfolding check_claims
  check_claims-Ends c = ground (arith, eq_iff c.issuer env.issuer, eq_iff c.audience "")

  active_subject-Ends :
      (c : AccessTokenClaims) (uid : String) (o : Option User)
      → env.parse_uuid c.subject ≡ some uid
      → find (λ u. u.id == uid) db.users ≡ o
      → Ends (λ u _. IsSubject c u) (λ _ _. Unit {0}) (active_subject K env db kv o tt)
  active_subject-Ends c uid none named e = tt
  active_subject-Ends c uid (some u) named e = elim (Bool-cases (u.status == "active")) [
    | inl is_on ↦ rw is_on ((let f = eq_iff u.status "active" in ground arith), (uid, named, e))
    | inr off ↦ rw off tt
  ]

  load_subject-Ends :
      (c : AccessTokenClaims)
      → Ends (λ u _. IsSubject c u) (λ _ _. Unit {0}) (load_subject K env db kv c tt)
  unfolding load_subject
  load_subject-Ends c =
      Ends-go_on (λ uid s. (env.parse_uuid c.subject ≡ some uid) × (s ≡ tt)) (λ u _. IsSubject c u)
        (λ _ _. Unit {0}) _ _ (Ends-value_or (env.parse_uuid c.subject) _ tt)
        λ uid s named.
          Ends-go_on (λ _ s'. (not env.user_fails ≡ true) × (s' ≡ s)) (λ u _. IsSubject c u)
            (λ _ _. Unit {0}) _ _ (Ends-ensure (not env.user_fails) _ s)
            λ _ _ _. active_subject-Ends c uid (find (λ u. u.id == uid) db.users) named.0 refl

  after_cutoff :
      (r : Result CutoffError ℕ) (issued_at : ℕ)
      → not_before_cutoff r issued_at ≡ true
      → (t : ℕ) → r ≡ ok t
      → t ≤ issued_at
  after_cutoff (ok cutoff) issued_at h t e = ground arith
  after_cutoff (err x) issued_at h t e = cc

  check_cutoffs-Ends :
      (c : AccessTokenClaims) (u : User)
      → Ends (λ _ _. IsAfterCutoffs c u) (λ _ _. Unit {0}) (check_cutoffs K env db kv c u tt)
  unfolding check_cutoffs
  check_cutoffs-Ends c u =
      elim (Bool-cases (not_before_cutoff (revoke_before_get K u.id kv) c.issued_at)) [
        | inr revoked ↦ rw revoked tt
        | inl fine ↦
            elim (Bool-cases
              (not_before_cutoff (revoke_before_client_get K c.audience kv) c.issued_at)) [
                | inr revoked ↦ rw (fine, revoked) tt
                | inl both ↦
                    rw (fine, both)
                      (after_cutoff _ c.issued_at fine, after_cutoff _ c.issued_at both)
              ]
      ]

  bearer_auth-Ends :
      (header : String)
      → Ends
          (λ p _. IsAccepted header p.0 p.1)
          (λ _ _. Unit {0})
          (bearer_auth K env db kv header tt)
  unfolding bearer_auth
  bearer_auth-Ends header =
      let raw = extract_bearer_token header in
      let lookup = lookup_key env.keys_fail db.keys in
      let read = parse_and_verify_access_token env.parse_jwt env.verify_rs256 lookup raw in
      let Accepted : User × AccessTokenClaims → Unit {0} → Type 0 =
        λ p _. IsAccepted header p.0 p.1 in
      let Refused : Refusal → Unit {0} → Type 0 = λ _ _. Unit {0} in
      Ends-go_on (λ _ s. (not (raw == "") ≡ true) × (s ≡ tt)) Accepted Refused _ _
        (Ends-ensure (not (raw == "")) _ tt)
        λ _ s₀ _.
          Ends-go_on (λ c s. (read ≡ some c) × (s ≡ s₀)) Accepted Refused _ _
            (Ends-value_or read _ s₀)
            λ c s₁ verified.
              Ends-go_on (λ _ _. AreCurrent c) Accepted Refused _ _ (check_claims-Ends c)
                λ _ s₂ current.
                  Ends-go_on (λ u _. IsSubject c u) Accepted Refused _ _ (load_subject-Ends c)
                    λ u s₃ subject.
                      Ends-go_on (λ _ _. IsAfterCutoffs c u) Accepted Refused _ _
                        (check_cutoffs-Ends c u)
                        λ _ s₄ after. (
                          parse_and_verify_sound env.parse_jwt env.verify_rs256 lookup raw c
                              verified.0,
                          current,
                          subject,
                          after,
                        )

  -- A bearer token is accepted only if: it is an RS256 access token whose signature holds under the key that its
  -- header names, of the keys that are published; its issuer is this server, its audience is not empty and its times are
  -- within 30 seconds of skew; its subject is an active user; and no cutoff of the user or the client that can be read
  -- is later than the token.
  pub bearer_auth-IsAccepted :
      (header : String) (u : User) (c : AccessTokenClaims)
      → bearer_auth K env db kv header tt ≡ (tt, next (u, c))
      → IsAccepted header u c
  bearer_auth-IsAccepted header u c e =
      Ends-next (λ p _. IsAccepted header p.0 p.1) (λ _ _. Unit {0}) _ e (bearer_auth-Ends header)

-- Once the tokens of a user were revoked at the time `now` without an error, a bearer token of that user that
-- was issued in the second of `now` or earlier is accepted only where the cutoff cannot be read.
pub revoked_not_accepted :
    (K : Valkey) (env : BearerEnv) (db : Db) (kv : K.State) (now : ℕ) (header : String) (u : User)
    (c : AccessTokenClaims)
    → (revoke_before_set_now K u.id now kv).1 ≡ true
    → c.issued_at ≤ unix now
    → bearer_auth K env db (revoke_before_set_now K u.id now kv).0 header tt ≡ (tt, next (u, c))
    → revoke_before_get K u.id (revoke_before_set_now K u.id now kv).0 ≡ err cutoff_failed
revoked_not_accepted K env db kv now header u c done early e =
    elim (revoke_before_get-set_now K u.id now kv done) [
      | inl failed ↦ failed
      | inr (t, read, late) ↦ absurd (
          let accepted =
            bearer_auth-IsAccepted K env db (revoke_before_set_now K u.id now kv).0 header u c e in
          let in_time = accepted.3.0 t read in
          let same : unix (c.issued_at * second) ≡ c.issued_at = omega arith in
          let revoked = (late (c.issued_at * second)).1 (rw same early) in omega arith)
    ]
