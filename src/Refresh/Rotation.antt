-- ===== src/Refresh/Rotation.antt =====
-- The rotation of a refresh token, as the refresh grant carries it out on the store: create, then mark_used.
use schlass.Base.{
  ℕ, ◌-◌, ◌<◌, ◌≡◌, ◌≢◌, refl, ◌⊎◌, inl, inr, true, false, Option, none, some, [], ◌∷◌, String, leb,
  Result, ok, err, arith, ap, sym, ◌∙◌, Bool-cases, ◌==◌, eq_iff,
}
use schlass.Valkey.Keys.{RefreshPayload, refresh_json, refresh_key}
use schlass.Valkey.Server.{Valkey, set}
use schlass.Refresh.{
  create_pipeline, reuse_detected, consume_failed, create_commands, create, consume, store_used,
  set_error, mark_used, payload_of, unknown,
}
use schlass.Refresh.Reuse.{
  on_exec_ok, consume-eq-ok, consume-mark_used, consume-Answers, holds_created,
}

other_hash : (a b : String) → a ≢ b → (a == b) ≡ false
other_hash a b h = let it = eq_iff a b in ground arith

module _ (K : Valkey) (hash : String → String) where
  open K use {State, holds, get, ttl}

  -- Creating a token leaves a token of another hash as it was.
  create_other :
      (now : ℕ) (fresh : Option String) (p : RefreshPayload) (s s' : State) (token other : String)
      → create K hash now fresh p s ≡ (s', ok token)
      → hash token ≢ hash other
      → holds (refresh_key (hash other)) s' ≡ holds (refresh_key (hash other)) s
  unfolding create
  create_other now none p s s' token other e differ = ground arith
  create_other now (some t) p s s' token other e differ = elim (Bool-cases (leb p.expires now)) [
    | inl late ↦ let never = rw late at e in cc
    | inr alive ↦
        let cs = create_commands (hash t) (record p { used = false }) (p.expires - now) in
        let (done, same, token_is) = on_exec_ok (K.pipe cs s) create_pipeline t (rw alive at e) in
        rw (← same) (
          K.pipe_holds cs (refresh_key (hash other)) s done
          ∙ rw (other_hash (hash t) (hash other) (rw (← token_is) at differ)) refl)
  ]

  store_used_other :
      (token other : String) (secs : ℕ) (s s' : State) (r : Result _ RefreshPayload)
      → store_used K hash token secs s r ≡ (s', ok tt)
      → hash token ≢ hash other
      → holds (refresh_key (hash other)) s' ≡ holds (refresh_key (hash other)) s
  unfolding store_used
  store_used_other token other secs s s' (err unknown) e differ =
      let same : s ≡ s' = ground arith in rw same refl
  store_used_other token other secs s s' (err _) e differ = cc
  store_used_other token other secs s s' (ok p) e differ = elim (Bool-cases p.used) [
    | inl done ↦ let same : s ≡ s' = ground arith in rw same refl
    | inr new ↦
        let cs =
          set (refresh_key (hash token)) (refresh_json (record p { used = true })) secs ∷ [] in
        let (done, same, _) = on_exec_ok (K.pipe cs s) set_error tt (rw new at e) in
        rw (← same) (
          K.pipe_holds cs (refresh_key (hash other)) s done
          ∙ rw (other_hash (hash token) (hash other) differ) refl)
  ]

  mark_used_other :
      (token other : String) (s s' : State)
      → mark_used K hash token s ≡ (s', ok tt)
      → hash token ≢ hash other
      → holds (refresh_key (hash other)) s' ≡ holds (refresh_key (hash other)) s
  unfolding mark_used
  mark_used_other token other s s' e differ =
      elim (Bool-cases (leb (ttl (refresh_key (hash token)) s).0 0)) [
        | inl none_left ↦
            let same : s ≡ s' = let it = rw none_left at e in ap (λ r. r.0) it in rw same refl
        | inr some_left ↦ elim (Bool-cases (ttl (refresh_key (hash token)) s).1) [
          | inl broken ↦ let never = rw (some_left, broken) at e in cc
          | inr fine ↦
              store_used_other token other (ttl (refresh_key (hash token)) s).0 s s'
                (payload_of (get (refresh_key (hash token)) s)) (rw (some_left, fine) at e) differ
        ]
      ]

  -- A refresh token that Consume gave out is rotated: a new token is created for it and then it is marked used, both
  -- without an error, while it has time to live and the two tokens have different hashes. Then the new token
  -- is given out with its payload, the old one is recognised as reused, and otherwise only an error of
  -- a read is answered.
  pub consume-rotated :
      (now : ℕ) (fresh : Option String) (old token : String) (p q : RefreshPayload)
      (s s₁ s₂ : State)
      → consume K hash old s ≡ ok p
      → create K hash now fresh q s ≡ (s₁, ok token)
      → hash token ≢ hash old
      → 0 < (ttl (refresh_key (hash old)) s₁).0
      → mark_used K hash old s₁ ≡ (s₂, ok tt)
      → ((consume K hash token s₂ ≡ ok (record q { used = false }))
          ⊎ (consume K hash token s₂ ≡ err consume_failed))
        × ((consume K hash old s₂ ≡ err (reuse_detected (record p { used = true })))
            ⊎ (consume K hash old s₂ ≡ err consume_failed))
  consume-rotated now fresh old token p q s s₁ s₂ given new differ alive marked =
      let held =
        create_other now fresh q s s₁ token old new differ ∙ consume-eq-ok K hash old s given in
      let renewed =
        mark_used_other old token s₁ s₂ marked (λ e. differ (sym e))
        ∙ (holds_created K hash now fresh q s s₁ token new).1 in
      (
        rw renewed at (consume-Answers K hash token s₂),
        consume-mark_used K hash old p s₁ s₂ held alive marked,
      )
