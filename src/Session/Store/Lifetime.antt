-- ===== src/Session/Store/Lifetime.antt =====
-- A session that was created is found; one that was deleted, or whose user's sessions were, is not.
use text.Mathlib.TextPositions.{eq_refl}
use schlass.Base.{
  ℕ, ◌≡◌, ◌≢◌, refl, ◌∙◌, ◌⊎◌, inl, inr, Bool, true, false, Option, none, some, List, [], ◌∷◌, ◌++◌,
  String, contains, if◌then◌else◌, ok, err, arith,
}
use schlass.Valkey.Keys.{
  Session, Value, session_json, refresh_json, cutoff_secs, plain, session_key, user_sessions_key,
}
use schlass.Valkey.Server.{
  Valkey, Reply, found, missing, failed, set, del, sadd, srem, expire, replay,
}
use schlass.Session.Store.{
  get_failed, session_of, on_exec, del_sessions, create_with_pending_return_to, slide, get_session,
  delete, delete_members, delete_all_for_user,
}

on_exec_ok :
    {A : Type 0} {S : Type 0} (r : S × Bool) (a : A) {b : A} {s : S}
    → on_exec r a ≡ (s, ok b)
    → (r.1 ≡ true) × (r.0 ≡ s) × (a ≡ b)
on_exec_ok (t, true) a h = (refl, cc, cc)
on_exec_ok (t, false) a h = cc

replay-del_sessions :
    (t user : String) (ts : List String) (o : Option Value)
    → replay (session_key t) (del_sessions ts ++ del (user_sessions_key user) ∷ []) o
      ≡ (if contains ts t then none else o)
replay-del_sessions t user [] o = refl
replay-del_sessions t user (u ∷ ts) o =
    ground (arith, replay-del_sessions t user ts none, replay-del_sessions t user ts o)

module _ (K : Valkey) (ttl : ℕ) where
  open K use {State, holds, members, get}

  -- What reading a key answers by what the server holds.
  slide-found :
      (now : ℕ) (token : String) (session : Session) (s : State) (r : Reply Value)
      → get (session_key token) s ≡ r
      → holds (session_key token) s ≡ some (session_json session)
      → ((slide K ttl now token s (session_of r)).1 ≡ ok (record session { last_seen_at = now }))
        ⊎ ((slide K ttl now token s (session_of r)).1 ≡ err get_failed)
  slide-found now token session s missing read held = let gone = K.get_missing _ s read in cc
  slide-found now token session s failed read held = inr refl
  slide-found now token session s (found v) read held =
      let same : v ≡ session_json session = let it = K.get_found _ s v read in cc in
      rw same (inl refl)

  slide-ok :
      (now : ℕ) (token : String) (s : State) (r : Reply Value) {session : Session}
      → get (session_key token) s ≡ r
      → (slide K ttl now token s (session_of r)).1 ≡ ok session
      → (was : Session) × (holds (session_key token) s ≡ some (session_json was))
        × (was.user_id ≡ session.user_id)
  slide-ok now token s missing read e = cc
  slide-ok now token s failed read e = cc
  slide-ok now token s (found (session_json was)) read e =
      (was, K.get_found _ s (session_json was) read, ground arith)
  slide-ok now token s (found (refresh_json _)) read e = cc
  slide-ok now token s (found (cutoff_secs _)) read e = cc
  slide-ok now token s (found (plain _)) read e = cc

  -- A session that was created is found under its token, for its user, seen at the time of the read and with its
  -- pending path; else only an error of the read is answered.
  pub get_session-create :
      (now later : ℕ) (fresh : Option String) (user_id ip agent return_to token : String)
      (s s' : State)
      → create_with_pending_return_to K ttl now fresh user_id ip agent return_to s ≡ (s', ok token)
      → ((get_session K ttl later token s').1
          ≡ ok (record {
            user_id = user_id;
            created_at = now;
            last_seen_at = later;
            ip_address = ip;
            user_agent = agent;
            pending_return_to = return_to;
          }))
        ⊎ ((get_session K ttl later token s').1 ≡ err get_failed)
  unfolding create_with_pending_return_to get_session
  get_session-create now later none user_id ip agent return_to token s s' e = cc
  get_session-create now later (some t) user_id ip agent return_to token s s' e =
      let session : Session = record {
        user_id = user_id;
        created_at = now;
        last_seen_at = now;
        ip_address = ip;
        user_agent = agent;
        pending_return_to = return_to;
      } in
      let cs =
        set (session_key t) (session_json session) ttl
        ∷ sadd (user_sessions_key user_id) t
        ∷ expire (user_sessions_key user_id) ttl
        ∷ [] in
      let (done, same, token_is) = on_exec_ok (K.pipe cs s) t e in
      let held : holds (session_key t) (K.pipe cs s).0 ≡ some (session_json session) =
        K.pipe_holds cs (session_key t) s done ∙ rw (eq_refl t) in
      slide-found later token session s' (get (session_key token) s') refl
        (rw (← same, ← token_is) held)

  -- A session that was deleted is found no more.
  pub get_session-delete :
      (now : ℕ) (user_id token : String) (s s' : State) (session : Session)
      → delete K ttl user_id token s ≡ (s', ok tt)
      → (get_session K ttl now token s').1 ≢ ok session
  unfolding delete get_session
  get_session-delete now user_id token s s' session e given =
      let cs = del (session_key token) ∷ srem (user_sessions_key user_id) token ∷ [] in
      let (done, same, _) = on_exec_ok (K.pipe cs s) tt e in
      let gone : holds (session_key token) s' ≡ none =
        rw (← same) (K.pipe_holds cs (session_key token) s done ∙ rw (eq_refl token)) in
      let (was, held, _) = slide-ok now token s' (get (session_key token) s') refl given in cc

  -- The set of a user names every session of the user that the server holds.
  abbrev pub IsIndexed : State → Type 0
  IsIndexed s =
      (token : String) (session : Session)
      → holds (session_key token) s ≡ some (session_json session)
      → contains (members (user_sessions_key session.user_id) s) token ≡ true

  members_deleted :
      (user_id token : String) (s s' : State) (r : Option (List String))
      → K.smembers (user_sessions_key user_id) s ≡ r
      → delete_members K ttl user_id s r ≡ (s', ok tt)
      → holds (session_key token) s' ≡ (
          if contains (members (user_sessions_key user_id) s) token
          then none
          else holds (session_key token) s)
  members_deleted user_id token s s' none read e = cc
  members_deleted user_id token s s' (some tokens) read e =
      let cs = del_sessions tokens ++ del (user_sessions_key user_id) ∷ [] in
      let (done, same, _) = on_exec_ok (K.pipe cs s) tt e in
      rw (← same, ← K.smembers_all _ s tokens read)
        (K.pipe_holds cs (session_key token) s done
          ∙ replay-del_sessions token user_id tokens (holds (session_key token) s))

  -- After all sessions of a user were deleted, in a store whose sets name the sessions that are held, a session
  -- that is found belongs to another user.
  pub get_session-delete_all_for_user :
      (now : ℕ) (user_id token : String) (s s' : State) (session : Session)
      → IsIndexed s
      → delete_all_for_user K ttl user_id s ≡ (s', ok tt)
      → (get_session K ttl now token s').1 ≡ ok session
      → session.user_id ≢ user_id
  unfolding delete_all_for_user get_session
  get_session-delete_all_for_user now user_id token s s' session indexed e given mine =
      let (was, held, owner) = slide-ok now token s' (get (session_key token) s') refl given in
      let gone =
        members_deleted user_id token s s' (K.smembers (user_sessions_key user_id) s) refl e in
      let before : holds (session_key token) s ≡ some (session_json was) = ground arith in
      let named = indexed token was before in
      let same : was.user_id ≡ user_id = owner ∙ mine in
      let listed = rw same at named in let none_left = rw listed at gone in cc
