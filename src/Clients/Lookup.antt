-- ===== src/Clients/Lookup.antt =====
-- What a lookup of a client by its id tells.
use schlass.Base.{
  ◌≡◌, refl, sym, ap, ◌∙◌, inl, inr, Bool, Option, none, some, List, String, if◌then◌else◌, arith,
  eq_iff, Bool-cases, Option-cases,
}
use schlass.Store.Tables.{Client}
use schlass.Store.Sql.{find, find_meets}
use schlass.Clients.Store.{is_active_client, get_by_id}

module _ (parse_uuid : String → Option String) (broken : Bool) (id : String)
    (clients : List Client) where
  pub get_by_id_malformed : parse_uuid id ≡ none → get_by_id parse_uuid broken id clients ≡ none
  unfolding get_by_id
  get_by_id_malformed e = rw (e, get_by_id) refl

  pub get_by_id_read :
      (uid : String)
      → parse_uuid id ≡ some uid
      → get_by_id parse_uuid broken id clients
        ≡ (if broken then none else find (is_active_client uid) clients)
  unfolding get_by_id
  get_by_id_read uid e = rw (e, get_by_id) refl

  found_active :
      (uid : String) (c : Client)
      → find (is_active_client uid) clients ≡ some c
      → (uid ≡ c.id) × (c.status ≡ "active")
  unfolding is_active_client
  found_active uid c e =
      let meets = find_meets (is_active_client uid) clients e in
      ground (arith, eq_iff c.id uid, eq_iff c.status "active")

  -- A client that is found has the id that was read, and is active.
  pub get_by_id-eq-some :
      (c : Client)
      → get_by_id parse_uuid broken id clients ≡ some c
      → (parse_uuid id ≡ some c.id) × (c.status ≡ "active")
  get_by_id-eq-some c e = elim (Option-cases (parse_uuid id)) [
    | inl malformed ↦ let never = get_by_id_malformed malformed in absurd cc
    | inr (uid, read) ↦
        let it : (if broken then none else find (is_active_client uid) clients) ≡ some c =
          sym (get_by_id_read uid read) ∙ e in
        elim (Bool-cases broken) [
          | inl is_broken ↦ absurd (let never = rw is_broken at it in cc)
          | inr fine ↦
              let (same, active) = found_active uid c (rw fine at it) in
              (read ∙ ap some same, active)
        ]
  ]
