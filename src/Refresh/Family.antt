-- ===== src/Refresh/Family.antt =====
-- Revoking a family: no token of the family is given out afterwards, and no other family is touched.
use schlass.Base.{
  ◌≡◌, ◌≢◌, refl, Option, none, some, List, [], ◌∷◌, ◌++◌, String, if◌then◌else◌, ok, arith, ap,
  ◌∙◌, ◌==◌, contains, eq_iff,
}
use schlass.Valkey.Keys.{RefreshPayload, Value, refresh_json, refresh_key, family_key}
use schlass.Valkey.Server.{Valkey, del, replay, replay_set}
use schlass.Refresh.{pipeline_error, del_hashes, consume, revoke_family}
use schlass.Refresh.Reuse.{on_exec_ok, consume-eq-ok}

-- What revoking makes of the value under a hash.
replay-del_hashes :
    (h fam : String) (hs : List String) (o : Option Value)
    → replay (refresh_key h) (del_hashes hs ++ del (family_key fam) ∷ []) o
      ≡ (if contains hs h then none else o)
replay-del_hashes h fam [] o = refl
replay-del_hashes h fam (g ∷ hs) o =
    ground (arith, replay-del_hashes h fam hs none, replay-del_hashes h fam hs o)

replay_set-del_hashes :
    (family fam : String) (hs names : List String)
    → replay_set (family_key family) (del_hashes hs ++ del (family_key fam) ∷ []) names
      ≡ (if fam == family then [] else names)
replay_set-del_hashes family fam [] names = refl
replay_set-del_hashes family fam (g ∷ hs) names = replay_set-del_hashes family fam hs names

module _ (K : Valkey) (hash : String → String) where
  open K use {State, holds, members}

  -- The set of a family names the tokens of the family, of those that the server holds.
  abbrev pub IsLinked : State → Type 0
  IsLinked s =
      (h : String) (p : RefreshPayload)
      → holds (refresh_key h) s ≡ some (refresh_json p)
      → (family : String) → contains (members (family_key family) s) h ≡ (p.family_id == family)

  -- Revoking deletes what the set of the family names, and no other token.
  pub revoked_holds :
      (family : String) (s s' : State) (h : String) (r : Option (List String))
      → K.smembers (family_key family) s ≡ r
      → revoke_family K hash family s ≡ (s', ok tt)
      → holds (refresh_key h) s'
        ≡ (if contains (members (family_key family) s) h then none else holds (refresh_key h) s)
  unfolding revoke_family
  revoked_holds family s s' h none read e = let broken = rw (read, revoke_family) at e in cc
  revoked_holds family s s' h (some hashes) read e =
      let cs = del_hashes hashes ++ del (family_key family) ∷ [] in
      let (done, same, _) =
        on_exec_ok (K.pipe cs s) pipeline_error tt (rw (read, revoke_family) at e) in
      rw (← same, ← K.smembers_all _ s hashes read)
        (K.pipe_holds cs (refresh_key h) s done
          ∙ replay-del_hashes h family hashes (holds (refresh_key h) s))

  -- The sets that are left name what they named, but for the set of the family, which is gone.
  pub revoked_members :
      (family : String) (s s' : State) (r : Option (List String))
      → K.smembers (family_key family) s ≡ r
      → revoke_family K hash family s ≡ (s', ok tt)
      → (other h : String)
      → contains (members (family_key other) s') h
        ≡ contains (if family == other then [] else members (family_key other) s) h
  unfolding revoke_family
  revoked_members family s s' none read e other h = let broken = rw (read, revoke_family) at e in cc
  revoked_members family s s' (some hashes) read e other h =
      let cs = del_hashes hashes ++ del (family_key family) ∷ [] in
      let (done, same, _) =
        on_exec_ok (K.pipe cs s) pipeline_error tt (rw (read, revoke_family) at e) in
      rw (← same) (
        K.pipe_members cs (family_key other) s done h
        ∙ ap (λ names. contains names h)
            (replay_set-del_hashes other family hashes (members (family_key other) s)))

  -- In a state where the sets name the tokens of their families: once a family is revoked without
  -- an error, each token of the family that was held is gone, each token of another family is held
  -- as before, and no token has appeared.
  pub revoke_family_effect :
      (family : String) (s s' : State)
      → IsLinked s
      → revoke_family K hash family s ≡ (s', ok tt)
      → (h : String)
      → ((p : RefreshPayload)
          → holds (refresh_key h) s ≡ some (refresh_json p)
          → holds (refresh_key h) s'
            ≡ (if p.family_id == family then none else some (refresh_json p)))
        × (holds (refresh_key h) s ≡ none → holds (refresh_key h) s' ≡ none)
  revoke_family_effect family s s' linked e h =
      let gone = revoked_holds family s s' h (K.smembers (family_key family) s) refl e in
      (λ p held. gone ∙ rw (linked h p held family, held), λ nothing. gone ∙ ground arith)

  -- After that no token of the family is given out, whatever the reads do.
  pub consume-revoke_family :
      (family : String) (s s' : State)
      → IsLinked s
      → revoke_family K hash family s ≡ (s', ok tt)
      → (token : String) (p : RefreshPayload) → consume K hash token s' ≡ ok p
      → p.family_id ≢ family
  consume-revoke_family family s s' linked e token p given =
      let h = hash token in
      let gone = revoked_holds family s s' h (K.smembers (family_key family) s) refl e in
      let now_held = consume-eq-ok K hash token s' given in
      let before : holds (refresh_key h) s ≡ some (refresh_json p) = ground arith in
      let named = linked h p before family in ground (arith, eq_iff p.family_id family)
