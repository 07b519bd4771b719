-- ===== src/Users/Admin/LastAdmin/Requests.antt =====
-- Any sequence of requests to the user administration, each served on what the one before it left.
use schlass.Base.{◌≡◌, none, Option, List, [], ◌∷◌, String, Outcome, next, reply, Ends}
use schlass.Store.Sql.{find}
use schlass.Valkey.Server.{Valkey}
use schlass.Users.Store.{has_id}
use schlass.Auth.Env.{Lib, Config, Env, Reply, World}
use schlass.Users.Admin.Write.{CreateUserRequest, UpdateUserRequest, create_user, update_user}
use schlass.Users.Admin.Status.{disable, enable, delete_user}
use schlass.Users.Admin.Resets.{reset_password, reset_mfa}
use schlass.Users.Admin.Sessions.{get, list_sessions, terminate_all_sessions, terminate_session}
use schlass.Users.Admin.Tables.{IsAdministered}
use schlass.Users.Admin.Phases.{Safe}
use schlass.Users.Admin.LastAdmin.{disable-Safe, enable-Safe, delete_user-Safe}
use schlass.Users.Admin.LastAdmin.Writes.{create_user-Safe, update_user-Safe, reset_password-Safe}
use schlass.Users.Admin.LastAdmin.Others.{
  reset_mfa-Safe, get-Kept, list_sessions-Kept, terminate_all_sessions-Kept, terminate_session-Kept,
}

-- A request with its path, its body, and the password that is generated for it.
pub data Request : Type 0 where
  creating : (body : Option CreateUserRequest) (password : Option String) → Request
  updating : (id : String) (body : Option UpdateUserRequest) → Request
  disabling enabling deleting : (id : String) → Request
  resetting_password : (id : String) (password : Option String) → Request
  resetting_mfa : (id : String) → Request
  showing showing_sessions terminating_all : (id : String) → Request
  terminating : (id token : String) → Request

module _ (K : Valkey) (lib : Lib) (config : Config) where
  abbrev pub serve : Env → Request → World K → World K × Outcome Reply ⊥
  serve env (creating body password) w = create_user K lib config env body password w
  serve env (updating id body) w = update_user K lib config env id body w
  serve env (disabling id) w = disable K lib config env id w
  serve env (enabling id) w = enable K lib config env id w
  serve env (deleting id) w = delete_user K lib config env id w
  serve env (resetting_password id password) w = reset_password K lib config env id password w
  serve env (resetting_mfa id) w = reset_mfa K lib config env id w
  serve env (showing id) w = get K lib config env id w
  serve env (showing_sessions id) w = list_sessions K lib config env id w
  serve env (terminating_all id) w = terminate_all_sessions K lib config env id w
  serve env (terminating id token) w = terminate_session K lib config env id token w

  abbrev pub serve_all : List (Env × Request) → World K → World K
  serve_all [] w = w
  serve_all ((env, request) ∷ rest) w = serve_all rest (serve env request w).0

  -- The id that the database gives to a new row is that of no row.
  abbrev pub HasFreshIds : List (Env × Request) → World K → Type 0
  HasFreshIds [] w = Unit
  HasFreshIds ((env, request) ∷ rest) w =
      (find (has_id (env.ids 0)) w.db.core.users ≡ none) × HasFreshIds rest (serve env request w).0

  left :
      (env : Env) (w : World K) (m : World K × Outcome Reply ⊥)
      → Ends {A = ⊥} (λ _ _. ⊥) (Safe K env w) m
      → IsAdministered m.0.db.core.users
  left env w (s, next a) h = absurd a
  left env w (s, reply r) h = h

  serve-IsAdministered :
      (env : Env) (request : Request) (w : World K)
      → find (has_id (env.ids 0)) w.db.core.users ≡ none
      → IsAdministered w.db.core.users
      → IsAdministered (serve env request w).0.db.core.users
  serve-IsAdministered env (creating body password) w fresh healthy =
      left env w (serve env (creating body password) w)
        (create_user-Safe K lib config env w body password fresh healthy)
  serve-IsAdministered env (updating id body) w fresh healthy =
      left env w (serve env (updating id body) w)
        (update_user-Safe K lib config env w id body healthy)
  serve-IsAdministered env (disabling id) w fresh healthy =
      left env w (serve env (disabling id) w) (disable-Safe K lib config env w id healthy)
  serve-IsAdministered env (enabling id) w fresh healthy =
      left env w (serve env (enabling id) w) (enable-Safe K lib config env w id healthy)
  serve-IsAdministered env (deleting id) w fresh healthy =
      left env w (serve env (deleting id) w) (delete_user-Safe K lib config env w id healthy)
  serve-IsAdministered env (resetting_password id password) w fresh healthy =
      left env w (serve env (resetting_password id password) w)
        (reset_password-Safe K lib config env w id password healthy)
  serve-IsAdministered env (resetting_mfa id) w fresh healthy =
      left env w (serve env (resetting_mfa id) w) (reset_mfa-Safe K lib config env w id healthy)
  serve-IsAdministered env (showing id) w fresh healthy =
      rw (get-Kept K lib config env w id) healthy
  serve-IsAdministered env (showing_sessions id) w fresh healthy =
      rw (list_sessions-Kept K lib config env w id) healthy
  serve-IsAdministered env (terminating_all id) w fresh healthy =
      rw (terminate_all_sessions-Kept K lib config env w id) healthy
  serve-IsAdministered env (terminating id token) w fresh healthy =
      rw (terminate_session-Kept K lib config env w id token) healthy

  -- A table of users with one row for each id and with an active super_admin has both after any sequence of requests to the user
  -- administration, whoever sends them and whatever fails, where the database gives a new row an id that no row has.
  pub active_admin_stays :
      (requests : List (Env × Request)) (w : World K)
      → HasFreshIds requests w
      → IsAdministered w.db.core.users
      → IsAdministered (serve_all requests w).db.core.users
  active_admin_stays [] w fresh healthy = healthy
  active_admin_stays ((env, request) ∷ rest) w (fresh, later) healthy =
      active_admin_stays rest (serve env request w).0 later
        (serve-IsAdministered env request w fresh healthy)
