-- ===== src/Refresh/Revoked.antt =====
-- What is given out of a family of refresh tokens after it was revoked.
use schlass.Base.{
  ℕ, ◌-◌, ◌≡◌, ◌≢◌, refl, sym, ◌∙◌, inl, inr, true, false, Option, none, some, [], ◌∷◌, String,
  ◌==◌, ok, arith, Bool-cases, eq_iff, if◌then◌else◌,
}
use schlass.Valkey.Keys.{RefreshPayload, refresh_json, refresh_key, family_key}
use schlass.Valkey.Server.{Valkey, set}
use schlass.Refresh.{create_commands, create, consume, mark_used, revoke_family}
use schlass.Refresh.Reuse.{consume-eq-ok}
use schlass.Refresh.Family.{IsLinked, revoked_holds}
use schlass.Refresh.Steps.{
  Step, creates, marks, revokes, lapses, Reach, Reach-IsLinked, created_pipe, mark_used_cases,
  mark_used_written,
}

module _ (K : Valkey) (hash : String → String) where
  open K use {State, holds, members, get}

  -- A step that does not create a token of the family.
  abbrev pub Spares : String → {s s' : State} → Step K hash s s' → Type 0
  Spares family (creates now fresh p token unknown e) = p.family_id ≢ family
  Spares family (marks token e) = Unit {0}
  Spares family (revokes other e) = Unit {0}
  Spares family (lapses left names) = Unit {0}

  -- Such steps, one after the other.
  pub data Later (family : String) (s : State) : State → Type 0 where
    at_once : Later family s s
    after :
        {t u : State}
        → Later family s t
        → (st : Step K hash t u) → Spares family st
        → Later family s u

  -- No token of the family is held.
  abbrev pub IsWithout : String → State → Type 0
  IsWithout family s =
      (h : String) (p : RefreshPayload)
      → holds (refresh_key h) s ≡ some (refresh_json p)
      → p.family_id ≢ family

  revoke_family-IsWithout :
      (family : String) (s s' : State)
      → IsLinked K hash s
      → revoke_family K hash family s ≡ (s', ok tt)
      → IsWithout family s'
  revoke_family-IsWithout family s s' linked e h p held =
      let gone = revoked_holds K hash family s s' h (K.smembers (family_key family) s) refl e in
      let before : holds (refresh_key h) s ≡ some (refresh_json p) = ground arith in
      let named = linked h p before family in ground (arith, eq_iff p.family_id family)

  create-IsWithout :
      (family : String) (now : ℕ) (fresh : Option String) (p : RefreshPayload) (s s' : State)
      (token : String)
      → create K hash now fresh p s ≡ (s', ok token)
      → p.family_id ≢ family
      → IsWithout family s
      → IsWithout family s'
  create-IsWithout family now fresh p s s' token e other without h q held =
      let stored = record p { used = false } in
      let cs = create_commands (hash token) stored (p.expires - now) in
      let (done, same) = created_pipe K hash now fresh p s s' token e in
      let value = K.pipe_holds cs (refresh_key h) s done in
      let now_held : (if hash token == h
            then some (refresh_json stored)
            else holds (refresh_key h) s)
          ≡ some (refresh_json q) =
        sym value ∙ rw same held in
      elim (Bool-cases (hash token == h)) [
        | inl mine ↦
            let it : some (refresh_json stored) ≡ some (refresh_json q) = rw mine at now_held in
            let is : stored ≡ q = cc in rw (← is) other
        | inr another ↦ without h q (rw another at now_held)
      ]

  mark_used-IsWithout :
      (family token : String) (s s' : State)
      → mark_used K hash token s ≡ (s', ok tt)
      → IsWithout family s
      → IsWithout family s'
  mark_used-IsWithout family token s s' e without = elim (mark_used_cases K hash token s s' e) [
    | inl same ↦ rw (← same) without
    | inr stored ↦
        let secs = (K.ttl (refresh_key (hash token)) s).0 in
        elim (mark_used_written K hash token secs s s' (get (refresh_key (hash token)) s) refl
          stored) [
            | inl same ↦ rw (← same) without
            | inr (p, stood, (done, same)) ↦ λ h q held.
                let cs =
                  set (refresh_key (hash token)) (refresh_json (record p { used = true })) secs
                  ∷ [] in
                let value = K.pipe_holds cs (refresh_key h) s done in
                let now_held : (if hash token == h
                      then some (refresh_json (record p { used = true }))
                      else holds (refresh_key h) s)
                    ≡ some (refresh_json q) =
                  sym value ∙ rw same held in
                elim (Bool-cases (hash token == h)) [
                  | inl mine ↦
                      let it : some (refresh_json (record p { used = true }))
                          ≡ some (refresh_json q) =
                        rw mine at now_held in
                      let family_same : p.family_id ≡ q.family_id = cc in
                      rw (← family_same) (without (hash token) p stood)
                  | inr another ↦ without h q (rw another at now_held)
                ]
          ]
  ]

  Step-IsWithout :
      (family : String) {s s' : State} (st : Step K hash s s')
      → Spares family st
      → IsWithout family s
      → IsWithout family s'
  Step-IsWithout family {s} {s'} (creates now fresh p token unknown e) other without =
      create-IsWithout family now fresh p s s' token e other without
  Step-IsWithout family {s} {s'} (marks token e) _ without =
      mark_used-IsWithout family token s s' e without
  Step-IsWithout family {s} {s'} (revokes gone e) _ without = λ h q held.
      let left = revoked_holds K hash gone s s' h (K.smembers (family_key gone) s) refl e in
      without h q (ground arith)
  Step-IsWithout family {s} {s'} (lapses left names) _ without =
      λ h q held. elim (left h) [ inl gone ↦ cc | inr same ↦ without h q (sym same ∙ held) ]

  Later-IsWithout :
      (family : String) {s s' : State}
      → Later family s s'
      → IsWithout family s
      → IsWithout family s'
  Later-IsWithout family at_once without = without
  Later-IsWithout family (after l st spares) without =
      Step-IsWithout family st spares (Later-IsWithout family l without)

  -- In a store that came from an empty one by operations that report no error and by tokens that lapse, a family that
  -- is revoked without an error stays revoked: after any further such steps, of which none creates a token of the
  -- family, no token of it is given out.
  pub Reach-consume-revoke_family :
      {s t : State} (u v : State) (family : String)
      → ((h : String) → holds (refresh_key h) s ≡ none)
      → Reach K hash s t
      → revoke_family K hash family t ≡ (u, ok tt)
      → Later family u v
      → (token : String) (p : RefreshPayload) → consume K hash token v ≡ ok p
      → p.family_id ≢ family
  Reach-consume-revoke_family {s} {t} u v family empty r e later token p given =
      Later-IsWithout family later
        (revoke_family-IsWithout family t u (Reach-IsLinked K hash empty r) e) (hash token) p
        (consume-eq-ok K hash token v given)
