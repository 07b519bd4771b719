-- ===== src/Lib.antt =====
-- Schlass, an OpenID Connect provider: a model of its protocol core and of the stores under it.
--
-- The program. internal/authserver has the endpoints: /authorize sends a logged-in user back to a client with
-- an authorization code, /token exchanges a code for tokens and rotates refresh tokens, a bearer middleware
-- guards /userinfo. internal/oidc builds and verifies claims and keeps refresh tokens; internal/session keeps
-- sessions and the cutoffs that revoke tokens; internal/clients, internal/users and internal/signingkeys are
-- the tables; internal/auth has the login with its second factor, the enrollment of that, the change and the
-- reset of a password, and the middleware that finds the user of a session. PostgreSQL holds the
-- tables, Valkey the tokens, the sessions, the cutoffs and the counters.
--
-- The files.
--   Base         tests on numbers, lists, Go's texts (strings.Fields, TrimSpace, len), results, and the
--                handlers: a state is passed on, and a step goes on with a value or has replied; `Ends` and
--                its rules say what holds in both cases.
--   Store        Tables: the rows (User, Client, AuthCodeRow, SigningKey, audit.Entry) and the database;
--                Sql: SELECT, UPDATE and DELETE with a condition, on lists of rows; Counts: what they count.
--   Valkey       Keys: keys and values; Server: the interface of a server, with the laws of commands that
--                succeed; Hashes: its commands on hashes; Memory and MemoryHashes: servers that meet
--                them, for the examples.
--   AuthCode     internal/authserver/authcode_store.go; Refinement has the abstract store that it implements.
--   Oidc         internal/oidc: claims.go, pkce.go, returnto.go, jwt.go, and intersectScopesAgainstClient.
--   Refresh      internal/oidc/refresh_store.go; Family, Reuse, Rotation, Steps and Revoked prove.
--   Clients      internal/clients/store.go: Store reads, Creation and Lifecycle write.
--   Session      internal/session/store.go and revokebefore.go.
--   Token        internal/authserver/token.go: Env is a request, Shared what both grants use, CodeGrant is
--                handleAuthorizationCode, RefreshGrant handleRefreshToken, Handle the dispatch. A handler is
--                cut into phases in the order of the source; Conditions says how each phase ends, and
--                Guarantee, Replay, Rotation and Theft put the phases together.
--   Authorize    internal/authserver/authorize.go: MaxAge is parseUint; Reauth, Conditions, Guarantee and
--                Redemption prove.
--   SigningKeys  internal/signingkeys/store.go and lifecycle.go.
--   Bearer       internal/authserver/bearer_middleware.go and userinfo.go.
--   Users        internal/users/permission.go and store.go: Lockout guards the login, Store has the rest.
--                Admin: handler.go; its modules Write, Status, Resets and Sessions have the handlers, Tables,
--                Phases and LastAdmin what keeps an active super_admin, Erasure the deletion.
--   Auth         Totp, RecoveryCodes and ResetTokens: internal/crypto/totp.go, internal/auth/
--                recovery_code_store.go and password_reset_token_store.go. Env is a request to the handlers
--                and their replies, Steps what they share. Login, Account (PostLogout, GetMe), ChangePassword
--                and DisableMfa: handler.go, with requests.go. Enrollment, with Verify and Complete,
--                and Challenge: mfa.go.
--                PasswordReset: password_reset.go. Middleware: middleware.go and optional_middleware.go.
--                The handlers are cut into phases like those of Token; the modules below them prove.
--   Validate     internal/clients/validate.go and redirect_uri.go, internal/settings/validate.go,
--                internal/validate.
--   RateLimit    internal/middleware/ratelimit.go, one client at a time; Window counts the requests that pass.
--   Tests        the theorems and the code at concrete requests.
--
-- How the code is read. The digests, uuid.Parse, Argon2id, the JWT library, url.Parse, mail.ParseAddress, the
-- classes of package unicode and the key wrapping are parameters, with no law assumed of them. A query of
-- PostgreSQL is an operation on a list of rows, and may fail where the request's `fails` says so; a
-- transaction works on a view that a commit puts in place of the tables. Valkey is a parameter: of a read that
-- succeeds and of a pipeline whose Exec returns no error it is assumed that they did what Redis documents; of
-- a pipeline that fails, nothing. Keys may lapse where a theorem says so. The clock, the random values and the
-- ids are given with the request. Times are natural numbers of nanoseconds, or of seconds where the code calls
-- Unix, and the claims of a token are not negative; uint64 in parseUint wraps around as in Go. The primary key of the codes and the constraints of the
-- users are those of internal/database/migrations/000001_baseline.up.sql. Requests are served one at a time. JSON written and read back is the same value. Every loop is recursion on its list, so
-- nothing needs fuel.
--
-- Not modelled: the metadata of audit entries but for the family of tokens, response headers and cookies, the
-- handlers of clients, settings and signing keys, List of the users and of the clients, mail, the address of
-- the client, configuration, migrations, the sweeper that deletes old codes, the router
-- and the web interface.
pub mod Base
pub mod Store
pub mod AuthCode
pub mod Oidc
pub mod Valkey
pub mod Refresh
pub mod Clients
pub mod Session
pub mod Token
pub mod Authorize
pub mod SigningKeys
pub mod Bearer
pub mod Users
pub mod Auth
pub mod Validate
pub mod RateLimit
pub mod Tests
