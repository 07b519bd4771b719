-- ===== src/Auth/PasswordReset/SignsOut.antt =====
-- A reset signs the user out everywhere.
use schlass.Base.{◌≡◌, ◌≢◌, String, Option, ok, next, reply, arith}
use schlass.Store.Tables.{User}
use schlass.Valkey.Server.{Valkey}
use schlass.Session.Store.{delete_all_for_user}
use schlass.Session.Store.Lifetime.{IsIndexed, get_session-delete_all_for_user}
use schlass.Session.RevokeBefore.{revoke_before_set_now}
use schlass.Auth.Env.{Lib, Config, Env, reset_done, World}
use schlass.Auth.Middleware.{middleware}
use schlass.Auth.Middleware.Guarantee.{IsOwner, middleware-IsOwner}
use schlass.Auth.PasswordReset.{ConfirmRequest, post_confirm}
use schlass.Auth.PasswordReset.Guarantee.{post_confirm-IsConfirmed}

module _ (K : Valkey) (lib : Lib) (config : Config) where
  -- What a reset leaves of Valkey before the sessions are deleted.
  abbrev pub revoked : Env → String → World K → K.State
  revoked env uid w = (revoke_before_set_now K uid env.now w.kv).0

  -- After a password was reset and the sessions of its user were deleted without an error, from a store whose sets name the
  -- sessions that are held, the middleware lets a request through only with a session of another user.
  pub reset_signs_out :
      (env later : Env) (body : Option ConfirmRequest) (w s s' : World K) (uid : String) (u : User)
      (kv : K.State)
      → post_confirm K lib config env body w ≡ (s, reply (reset_done uid))
      → IsIndexed K config.session_ttl (revoked env uid w)
      → delete_all_for_user K config.session_ttl uid (revoked env uid w) ≡ (kv, ok tt)
      → middleware K lib config later s ≡ (s', next u)
      → (token : String) × (owner : IsOwner K lib config later token u s) × (owner.session.user_id
          ≢ uid)
  reset_signs_out env later body w s s' uid u kv e indexed deleted let_in =
      let it = post_confirm-IsConfirmed K lib config env body w s uid e in
      let (token, there, owner) = middleware-IsOwner K lib config later s s' u let_in in
      let left : s.kv ≡ kv =
        let is = it.revoked in let who = it.owner in let gone = rw who at deleted in ground arith in
      let live = rw left at owner.live in
      (
        token,
        owner,
        get_session-delete_all_for_user K config.session_ttl later.session_now uid token
            (revoked env uid w) kv owner.session indexed deleted live,
      )
