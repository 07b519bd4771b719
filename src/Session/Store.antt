-- ===== src/Session/Store.antt =====
-- internal/session/store.go: sessions in Valkey, under their token, with a set of tokens for each user.
pub mod Lifetime
use schlass.Base.{
  ℕ, ◌≡◌, Bool, true, false, Option, none, some, List, [], ◌∷◌, ◌++◌, String, ◌==◌, if◌then◌else◌,
  Result, ok, err,
}
use schlass.Valkey.Keys.{Session, Value, session_json, Key, session_key, user_sessions_key}
use schlass.Valkey.Server.{
  Valkey, Reply, found, missing, failed, Command, set, set_keep_ttl, del, sadd, srem, expire,
}

pub data SessionError : Type 0 where
  not_found entropy get_failed unmarshal_failed pipeline_failed smembers_failed : SessionError

abbrev pub decode : Value → Option Session
decode (session_json s) = some s
decode _ = none

-- The reply to GET as a session.
abbrev pub session_of : Reply Value → Result SessionError Session
session_of missing = err not_found
session_of failed = err get_failed
session_of (found v) = elim (decode v) [ none ↦ err unmarshal_failed | some s ↦ ok s ]

-- The state after a pipeline, with `a` if Exec returned no error.
abbrev pub on_exec : {A : Type 0} {S : Type 0} → S × Bool → A → S × Result SessionError A
on_exec (s, true) a = (s, ok a)
on_exec (s, false) a = (s, err pipeline_failed)

abbrev pub del_sessions : List String → List Command
del_sessions [] = []
del_sessions (t ∷ ts) = del (session_key t) ∷ del_sessions ts

-- `ttl` is the session's time to live in seconds.
module _ (K : Valkey) (ttl : ℕ) where
  open K use {State, get, smembers, pipe}

  unfoldable pub create_with_pending_return_to :
      (now : ℕ) (fresh : Option String) (user_id ip_address user_agent return_to : String)
      → State
      → State × Result SessionError String
  create_with_pending_return_to now none user_id ip_address user_agent return_to s =
      (s, err entropy)
  create_with_pending_return_to now (some token) user_id ip_address user_agent return_to s =
      let session : Session = record {
        user_id = user_id;
        created_at = now;
        last_seen_at = now;
        ip_address = ip_address;
        user_agent = user_agent;
        pending_return_to = return_to;
      } in
      on_exec
        (pipe
          (set (session_key token) (session_json session) ttl
            ∷ sadd (user_sessions_key user_id) token
            ∷ expire (user_sessions_key user_id) ttl
            ∷ [])
          s)
        token

  unfoldable pub create :
      (now : ℕ) (fresh : Option String) (user_id ip_address user_agent : String)
      → State
      → State × Result SessionError String
  create now fresh user_id ip_address user_agent =
      create_with_pending_return_to now fresh user_id ip_address user_agent ""

  -- The session that was read is written back as seen now; a failure of that is only logged.
  abbrev pub slide :
      ℕ → String → State → Result SessionError Session → State × Result SessionError Session
  slide now token s (err e) = (s, err e)
  slide now token s (ok session) =
      let seen = record session { last_seen_at = now } in
      (
        (pipe
            (set (session_key token) (session_json seen) ttl
              ∷ expire (user_sessions_key session.user_id) ttl
              ∷ [])
            s).0,
        ok seen,
      )

  unfoldable pub get_session : (now : ℕ) → String → State → State × Result SessionError Session
  get_session now token s = slide now token s (session_of (get (session_key token) s))

  unfoldable pub delete : (user_id token : String) → State → State × Result SessionError (Unit {0})
  delete user_id token s =
      on_exec (pipe (del (session_key token) ∷ srem (user_sessions_key user_id) token ∷ []) s) tt

  -- One session of the list: an expired one is skipped, an error ends the listing.
  abbrev pub listed :
      String
      → Result SessionError Session
      → Result SessionError (List (String × Session))
      → Result SessionError (List (String × Session))
  listed token (err not_found) rest = rest
  listed token (err e) rest = err e
  listed token (ok session) (ok rest) = ok ((token, session) ∷ rest)
  listed token (ok session) (err e) = err e

  read_all : List String → State → Result SessionError (List (String × Session))
  read_all [] s = ok []
  read_all (t ∷ ts) s = listed t (session_of (get (session_key t) s)) (read_all ts s)

  abbrev pub list_members :
      Option (List String) → State → Result SessionError (List (String × Session))
  unfolding read_all
  list_members none s = err smembers_failed
  list_members (some tokens) s = read_all tokens s

  unfoldable pub list_by_user :
      (user_id : String) → State → Result SessionError (List (String × Session))
  unfolding read_all
  list_by_user user_id s = list_members (smembers (user_sessions_key user_id) s) s

  -- The write of a session without its pending path, which keeps the time to live.
  abbrev pub cleared :
      String → State → Result SessionError Session → State × Result SessionError (Unit {0})
  cleared token s (err e) = (s, err e)
  cleared token s (ok session) =
      if session.pending_return_to == ""
      then (s, ok tt)
      else on_exec
          (pipe
            (set_keep_ttl (session_key token)
                (session_json (record session { pending_return_to = "" }))
              ∷ [])
            s)
          tt

  unfoldable pub clear_pending_return_to : String → State → State × Result SessionError (Unit {0})
  clear_pending_return_to token s = cleared token s (session_of (get (session_key token) s))

  abbrev pub delete_members :
      String → State → Option (List String) → State × Result SessionError (Unit {0})
  delete_members user_id s none = (s, err smembers_failed)
  delete_members user_id s (some tokens) =
      on_exec (pipe (del_sessions tokens ++ del (user_sessions_key user_id) ∷ []) s) tt

  unfoldable pub delete_all_for_user :
      (user_id : String) → State → State × Result SessionError (Unit {0})
  delete_all_for_user user_id s = delete_members user_id s (smembers (user_sessions_key user_id) s)
