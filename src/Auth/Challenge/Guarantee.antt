-- ===== src/Auth/Challenge/Guarantee.antt =====
-- When a challenge signs in.
use schlass.Base.{ℕ, ℤ, pos, negsuc, ◌≡◌, Option, some, String}
use schlass.Store.Tables.{User}
use schlass.Store.Sql.{find}
use schlass.Valkey.Keys.{challenge_key}
use schlass.Valkey.Server.{Valkey}
use schlass.Valkey.Hashes.{Hashes}
use schlass.Users.Store.{has_id}
use schlass.Auth.Env.{Lib, Config, Env, Reply, signed_in, World}
use schlass.Auth.Challenge.{ChallengeRequest, nonempty, cookie_value}
use schlass.Auth.Challenge.Verified.{Verified}

module _ (K : Valkey) (H : Hashes K) (lib : Lib) (config : Config) (env : Env)
    (body : Option ChallengeRequest) (w : World K) where
  -- Valkey when the attempt was counted.
  abbrev pub counted : String → K.State × Option ℤ
  counted token = H.hincr (challenge_key token) "attempts_remaining" (negsuc 0) w.kv

  -- The challenge of the cookie had an attempt left and is that of the user.
  pub record IsChallenge (token : String) (u : User) : Type 0 where
    pub remaining : ℕ
    pub user_id : String
    pub uid : String
    pub sent : cookie_value env.challenge_cookie ≡ some token
    pub paid : (counted token).1 ≡ some (pos remaining)
    pub held : nonempty (H.hget (challenge_key token) "user_id" (counted token).0) ≡ some user_id
    pub named : lib.parse_uuid user_id ≡ some uid
    pub found : find (has_id uid) w.db.core.users ≡ some u

  -- The state in which the code is checked.
  abbrev pub after_count : String → World K
  after_count token = record w { kv = (counted token).0 }

  abbrev pub Final : Reply → World K → Type 0
  Final (signed_in session dto to) s =
      (token : String) × (req : ChallengeRequest) × (u : User) × (path : String) × (body ≡ some req)
      × IsChallenge token u
      × Verified K H lib config env body token req u path (after_count token)
          (signed_in session dto to) s
  Final _ s = Unit {0}

  abbrev IsLoaded : String → User × String → World K → Type 0
  IsLoaded token (u, path) s =
      (s ≡ after_count token)
      × ((user_id : String) × (uid : String) × (nonempty
              (H.hget (challenge_key token) "user_id" (counted token).0)
            ≡ some user_id)
          × (lib.parse_uuid user_id ≡ some uid)
          × (find (has_id uid) w.db.core.users ≡ some u))
