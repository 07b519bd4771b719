-- ===== src/Refresh/Reuse.antt =====
-- A refresh token that was created can be consumed, and one that was marked used is recognised.
use text.Mathlib.TextPositions.{eq_refl}
use schlass.Base.{
  ℕ, ◌-◌, ◌<◌, ◌≡◌, refl, ◌⊎◌, inl, inr, Bool, true, false, Option, none, some, [], ◌∷◌, String,
  leb, if◌then◌else◌, Result, ok, err, arith, sym, ◌∙◌, Bool-cases,
}
use schlass.Valkey.Keys.{RefreshPayload, Value, refresh_json, refresh_key}
use schlass.Valkey.Server.{Valkey, Reply, found, missing, failed, set}
use schlass.Refresh.{
  create_pipeline, ConsumeError, unknown_or_expired, reuse_detected, consume_failed, decode,
  on_exec, create_commands, create, consume, store_used, set_error, mark_used, payload_of,
}

-- What consuming answers by what the server holds, where the read succeeds.
abbrev pub consumed : Option Value → Result ConsumeError RefreshPayload
consumed none = err unknown_or_expired
consumed (some v) = elim (decode v) [
  | none ↦ err consume_failed
  | some p ↦ if p.used then err (reuse_detected p) else ok p
]

-- That answer, or the error of a read that failed.
abbrev pub Answers : Result ConsumeError RefreshPayload → Option Value → Type 0
Answers r o = (r ≡ consumed o) ⊎ (r ≡ err consume_failed)

pub on_exec_ok {ℓ} :
    {E A : Type ℓ} {S : Type 0} (r : S × Bool) (e : E) (a : A) {b : A} {s : S}
    → on_exec r e a ≡ (s, ok b)
    → (r.1 ≡ true) × (r.0 ≡ s) × (a ≡ b)
on_exec_ok (t, true) e a h = (refl, cc, cc)
on_exec_ok (t, false) e a h = cc

consumed-eq-ok :
    (o : Option Value) {p : RefreshPayload} → consumed o ≡ ok p → o ≡ some (refresh_json p)
consumed-eq-ok none e = cc
consumed-eq-ok (some (refresh_json q)) e = ground arith
consumed-eq-ok (some _) e = cc

module _ (K : Valkey) (hash : String → String) where
  open K use {State, holds, get}

  consume_of_reply :
      (token : String) (s : State) (r : Reply Value)
      → get (refresh_key (hash token)) s ≡ r
      → Answers (consume K hash token s) (holds (refresh_key (hash token)) s)
  unfolding consume
  consume_of_reply token s (found v) e = rw (e, K.get_found _ s v e) (ground arith)
  consume_of_reply token s missing e = rw (e, K.get_missing _ s e) (inl refl)
  consume_of_reply token s failed e = rw e (inr refl)

  pub consume-Answers :
      (token : String) (s : State)
      → Answers (consume K hash token s) (holds (refresh_key (hash token)) s)
  consume-Answers token s = consume_of_reply token s (get (refresh_key (hash token)) s) refl

  -- A token that is given out is held as it is given.
  pub consume-eq-ok :
      (token : String) (s : State) {p : RefreshPayload}
      → consume K hash token s ≡ ok p
      → holds (refresh_key (hash token)) s ≡ some (refresh_json p)
  consume-eq-ok token s e = elim (consume-Answers token s) [
    | inl told ↦ consumed-eq-ok (holds (refresh_key (hash token)) s) (sym told ∙ e)
    | inr broken ↦ cc
  ]

  pub holds_created :
      (now : ℕ) (fresh : Option String) (p : RefreshPayload) (s s' : State) (token : String)
      → create K hash now fresh p s ≡ (s', ok token)
      → (now < p.expires)
        × (holds (refresh_key (hash token)) s' ≡ some (refresh_json (record p { used = false })))
  unfolding create
  holds_created now none p s s' token e = ground arith
  holds_created now (some t) p s s' token e = elim (Bool-cases (leb p.expires now)) [
    | inl late ↦ let never = rw late at e in cc
    | inr alive ↦
        let stored = record p { used = false } in
        let cs = create_commands (hash t) stored (p.expires - now) in
        let (done, same, token_is) = on_exec_ok (K.pipe cs s) create_pipeline t (rw alive at e) in
        (
          ground arith,
          rw (← same, ← token_is)
              (K.pipe_holds cs (refresh_key (hash t)) s done ∙ rw (eq_refl (hash t))),
        )
  ]

  -- A token that was created had not expired. Consuming it from the state that its creation left gives the
  -- payload that was stored, as unused, or the error of a read that failed.
  pub consume-create :
      (now : ℕ) (fresh : Option String) (p : RefreshPayload) (s s' : State) (token : String)
      → create K hash now fresh p s ≡ (s', ok token)
      → (now < p.expires)
        × ((consume K hash token s' ≡ ok (record p { used = false }))
            ⊎ (consume K hash token s' ≡ err consume_failed))
  consume-create now fresh p s s' token e =
      let (alive, held) = holds_created now fresh p s s' token e in
      (alive, rw held at (consume-Answers token s'))

  -- What the key holds after a payload was marked used.
  abbrev IsMarked : (token : String) (p : RefreshPayload) (s : State) → Type 0
  IsMarked token p s =
      holds (refresh_key (hash token)) s ≡ some (refresh_json (record p { used = true }))

  store_used_holds :
      (token : String) (secs : ℕ) (p : RefreshPayload) (s s' : State)
      → holds (refresh_key (hash token)) s ≡ some (refresh_json p)
      → store_used K hash token secs s (ok p) ≡ (s', ok tt)
      → IsMarked token p s'
  unfolding store_used
  store_used_holds token secs p s s' held e = elim (Bool-cases p.used) [
    | inl old ↦
        let same : s ≡ s' = ground arith in
        rw (← same) (held ∙ λ i. some (refresh_json (record p { used = old i })))
    | inr new ↦
        let cs =
          set (refresh_key (hash token)) (refresh_json (record p { used = true })) secs ∷ [] in
        let (done, same, _) = on_exec_ok (K.pipe cs s) set_error tt (rw new at e) in
        rw (← same) (K.pipe_holds cs (refresh_key (hash token)) s done ∙ rw (eq_refl (hash token)))
  ]

  store_read_holds :
      (token : String) (secs : ℕ) (p : RefreshPayload) (s s' : State) (r : Reply Value)
      → get (refresh_key (hash token)) s ≡ r
      → holds (refresh_key (hash token)) s ≡ some (refresh_json p)
      → store_used K hash token secs s (payload_of r) ≡ (s', ok tt)
      → IsMarked token p s'
  store_read_holds token secs p s s' missing read held e =
      let no_value = K.get_missing _ s read in cc
  store_read_holds token secs p s s' failed read held e = unfold store_used in cc
  store_read_holds token secs p s s' (found v) read held e =
      let same : v ≡ refresh_json p = let it = K.get_found _ s v read in cc in
      store_used_holds token secs p s s' held (rw same at e)

  -- A refresh token that is held and unused is, once marked used while it has time to live, recognised as
  -- reused: it is not given out again.
  pub consume-mark_used :
      (token : String) (p : RefreshPayload) (s s' : State)
      → holds (refresh_key (hash token)) s ≡ some (refresh_json p)
      → 0 < (K.ttl (refresh_key (hash token)) s).0
      → mark_used K hash token s ≡ (s', ok tt)
      → (consume K hash token s' ≡ err (reuse_detected (record p { used = true })))
        ⊎ (consume K hash token s' ≡ err consume_failed)
  unfolding mark_used
  consume-mark_used token p s s' held alive e =
      elim (Bool-cases (K.ttl (refresh_key (hash token)) s).1) [
        | inl broken ↦ absurd (let z = K.ttl_error _ s broken in omega arith)
        | inr fine ↦
            let stored =
              store_read_holds token (K.ttl (refresh_key (hash token)) s).0 p s s'
                (get (refresh_key (hash token)) s) refl held (ground arith) in
            rw stored at (consume-Answers token s')
      ]

  -- A failure of the TTL command is taken for an expired key: mark_used reports success and leaves the
  -- server as it was.
  mark_used-ttl_error :
      (token : String) (s : State)
      → (K.ttl (refresh_key (hash token)) s).1 ≡ true
      → mark_used K hash token s ≡ (s, ok tt)
  unfolding mark_used
  mark_used-ttl_error token s broken = let z = K.ttl_error _ s broken in ground arith
