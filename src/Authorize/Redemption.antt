-- ===== src/Authorize/Redemption.antt =====
-- A code that the authorization endpoint gave out can be redeemed.
use text.Mathlib.TextPositions.{eq_refl}
use schlass.Base.{
  ℕ, ◌+◌, ◌*◌, ◌<◌, ◌≡◌, refl, sym, ap, ◌∙◌, true, false, some, List, ◌∷◌, String, ltb, reply,
  arith,
}
use schlass.Store.Tables.{AuthCode, User}
use schlass.Store.Sql.{find}
use schlass.AuthCode.{is_consumable, consume_once}
use schlass.Oidc.Claims.{second}
use schlass.Valkey.Server.{Valkey}
use schlass.Authorize.Endpoint.{client_query, Query, Env, redirect_code, World}
use schlass.Clients.Lookup.{get_by_id-eq-some}
use schlass.Authorize.{handle}
use schlass.Authorize.Conditions
use schlass.Authorize.Guarantee.{handle-IsAuthorized}

inserted_consumable :
    (now : ℕ) (row : AuthCode) (codes : List AuthCode)
    → now < row.expires_at
    → row.used ≡ false
    → (consume_once now row.code_hash (row ∷ codes)).1 ≡ some row
unfolding consume_once is_consumable find
inserted_consumable now row codes h unused =
    let alive : ltb now row.expires_at ≡ true = ground arith in
    rw (eq_refl row.code_hash, unused, alive) refl

-- Where the authorization endpoint sent a code, consuming that code within 60 seconds, in the table that the request left,
-- gives a row with the client, the URI and the challenge of the request, and the user who is logged in.
pub consume_once-authorize :
    (K : Valkey) (env : Env) (q : Query) (w s : World K) (uri sep code state : String) (now : ℕ)
    → handle K env q w ≡ (s, reply (redirect_code uri sep code state))
    → now < env.now + 60 * second
    → (row : AuthCode) × ((consume_once now (env.sha256hex code) s.db.codes).1 ≡ some row)
      × (row.redirect_uri ≡ uri)
      × ((u : User) × (env.current_user ≡ some u) × (row.user_id ≡ u.id))
      × (row.code_challenge ≡ q.code_challenge)
      × (env.parse_uuid q.client_id ≡ some row.client_id)
consume_once-authorize K env q w s uri sep code state now e h =
    let (c, known, (to, _, why)) = handle-IsAuthorized K env q w s uri sep code state e in
    let row = Conditions.row K env q w c why.user code in
    (
      row,
      ap (λ codes. (consume_once now (env.sha256hex code) codes).1) why.stored
          ∙ inserted_consumable now row w.db.codes h refl,
      sym to,
      (why.user, why.logged_in, refl),
      refl,
      (get_by_id-eq-some env.parse_uuid (env.fails client_query) q.client_id w.db.clients c
          known.0).0,
    )
