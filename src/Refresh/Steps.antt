-- ===== src/Refresh/Steps.antt =====
-- The operations of the refresh store as steps, and the invariant that they keep: the set of a family
-- names the tokens of the family.
use schlass.Base.{
  ℕ, ◌-◌, ◌≡◌, refl, ◌⊎◌, inl, inr, Bool, true, false, Option, none, some, List, [], ◌∷◌, String,
  leb, if◌then◌else◌, ok, arith, sym, ◌∙◌, Bool-cases, ◌==◌, contains, eq_iff,
}
use schlass.Valkey.Keys.{RefreshPayload, Value, refresh_json, refresh_key, family_key}
use schlass.Valkey.Server.{Valkey, Reply, found, missing, failed, set}
use schlass.Refresh.{
  create_pipeline, create_commands, create, mark_used, revoke_family, payload_of, store_used,
  set_error,
}
use schlass.Refresh.Reuse.{on_exec_ok}
use schlass.Refresh.Family.{IsLinked, revoked_holds, revoked_members}

-- One token and one family, after SET and SADD.
named_after :
    (new h family : String) (stored q : RefreshPayload) (o : Option Value) (names : List String)
    {c : Bool}
    → contains names new ≡ false
    → (o ≡ some (refresh_json q) → contains names h ≡ (q.family_id == family))
    → (if new == h then some (refresh_json stored) else o) ≡ some (refresh_json q)
    → c ≡ contains (if stored.family_id == family then new ∷ names else names) h
    → c ≡ (q.family_id == family)
named_after new h family stored q o names unknown linked held now = elim (Bool-cases (new == h)) [
  | inl same ↦
      let it : new ≡ h = (eq_iff new h).0 same in
      let none_of_h : contains names h ≡ false = rw (← it) unknown in
      let is : stored ≡ q = ground arith in rw (← is) (ground arith)
  | inr other ↦
      let old : contains names h ≡ (q.family_id == family) = linked (ground arith) in ground arith
]

module _ (K : Valkey) (hash : String → String) where
  open K use {State, holds, members, get}

  pub created_pipe :
      (now : ℕ) (fresh : Option String) (p : RefreshPayload) (s s' : State) (token : String)
      → create K hash now fresh p s ≡ (s', ok token)
      → let stored = record p { used = false } in
        let run = K.pipe (create_commands (hash token) stored (p.expires - now)) s in
        (run.1 ≡ true) × (run.0 ≡ s')
  unfolding create
  created_pipe now none p s s' token e = ground arith
  created_pipe now (some t) p s s' token e = elim (Bool-cases (leb p.expires now)) [
    | inl late ↦ let never = rw late at e in cc
    | inr alive ↦
        let stored = record p { used = false } in
        let cs = create_commands (hash t) stored (p.expires - now) in
        let (done, same, token_is) = on_exec_ok (K.pipe cs s) create_pipeline t (rw alive at e) in
        rw (← token_is) (done, same)
  ]

  create-IsLinked :
      (now : ℕ) (fresh : Option String) (p : RefreshPayload) (s s' : State) (token : String)
      → create K hash now fresh p s ≡ (s', ok token)
      → ((family : String) → contains (members (family_key family) s) (hash token) ≡ false)
      → IsLinked K hash s
      → IsLinked K hash s'
  create-IsLinked now fresh p s s' token e unknown linked h q held family =
      let stored = record p { used = false } in
      let cs = create_commands (hash token) stored (p.expires - now) in
      let (done, same) = created_pipe now fresh p s s' token e in
      let value = K.pipe_holds cs (refresh_key h) s done in
      let names = K.pipe_members cs (family_key family) s done h in
      named_after (hash token) h family stored q (holds (refresh_key h) s)
        (members (family_key family) s) (unknown family) (λ o. linked h q o family)
        (sym value ∙ rw same held) (rw (← same) names)

  pub mark_used_written :
      (token : String) (secs : ℕ) (s s' : State) (r : Reply Value)
      → get (refresh_key (hash token)) s ≡ r
      → store_used K hash token secs s (payload_of r) ≡ (s', ok tt)
      → (s ≡ s')
        ⊎ ((p : RefreshPayload) × (holds (refresh_key (hash token)) s ≡ some (refresh_json p))
            × let cs =
                set (refresh_key (hash token)) (refresh_json (record p { used = true })) secs
                ∷ [] in
              ((K.pipe cs s).1 ≡ true) × ((K.pipe cs s).0 ≡ s'))
  unfolding store_used
  mark_used_written token secs s s' missing read e = inl (ground arith)
  mark_used_written token secs s s' failed read e = cc
  mark_used_written token secs s s' (found (refresh_json p)) read e = elim (Bool-cases p.used) [
    | inl old ↦ inl (ground arith)
    | inr new ↦
        let cs =
          set (refresh_key (hash token)) (refresh_json (record p { used = true })) secs ∷ [] in
        let (done, same, _) = on_exec_ok (K.pipe cs s) set_error tt (rw new at e) in
        inr (p, K.get_found _ s _ read, (done, same))
  ]
  mark_used_written token secs s s' (found _) read e = cc

  pub mark_used_cases :
      (token : String) (s s' : State)
      → mark_used K hash token s ≡ (s', ok tt)
      → (s ≡ s')
        ⊎ (store_used K hash token
              (K.ttl (refresh_key (hash token)) s).0
              s
              (payload_of (get (refresh_key (hash token)) s))
            ≡ (s', ok tt))
  unfolding mark_used
  mark_used_cases token s s' e = elim (Bool-cases (leb (K.ttl (refresh_key (hash token)) s).0 0)) [
    | inl gone ↦ inl (ground arith)
    | inr alive ↦ elim (Bool-cases (K.ttl (refresh_key (hash token)) s).1) [
      | inl broken ↦ let never = rw (alive, broken) at e in cc
      | inr fine ↦ inr (rw (alive, fine) at e)
    ]
  ]

  written-IsLinked :
      (token : String) (secs : ℕ) (p : RefreshPayload) (s s' : State)
      → holds (refresh_key (hash token)) s ≡ some (refresh_json p)
      → let cs =
          set (refresh_key (hash token)) (refresh_json (record p { used = true })) secs ∷ [] in
        (K.pipe cs s).1 ≡ true → (K.pipe cs s).0 ≡ s' → IsLinked K hash s → IsLinked K hash s'
  written-IsLinked token secs p s s' stood done same linked h q held family =
      let cs = set (refresh_key (hash token)) (refresh_json (record p { used = true })) secs ∷ [] in
      let value = K.pipe_holds cs (refresh_key h) s done in
      let names = rw same at (K.pipe_members cs (family_key family) s done h) in
      elim (Bool-cases (hash token == h)) [
        | inl it ↦
            let this : hash token ≡ h = (eq_iff (hash token) h).0 it in
            let old = linked (hash token) p stood family in
            let new : some (refresh_json (record p { used = true })) ≡ some (refresh_json q) =
              sym (rw (same, it) at value) ∙ held in
            let family_same : p.family_id ≡ q.family_id = cc in
            names ∙ rw (← this, ← family_same) old
        | inr other ↦ names ∙ linked h q (sym (rw (same, other) at value) ∙ held) family
      ]

  mark_used-IsLinked :
      (token : String) (s s' : State)
      → mark_used K hash token s ≡ (s', ok tt)
      → IsLinked K hash s
      → IsLinked K hash s'
  mark_used-IsLinked token s s' e linked = elim (mark_used_cases token s s' e) [
    | inl same ↦ rw (← same) linked
    | inr stored ↦
        let secs = (K.ttl (refresh_key (hash token)) s).0 in
        elim (mark_used_written token secs s s' (get (refresh_key (hash token)) s) refl stored) [
          | inl same ↦ rw (← same) linked
          | inr (p, stood, (done, same)) ↦ written-IsLinked token secs p s s' stood done same linked
        ]
  ]

  revoke_family-IsLinked :
      (family : String) (s s' : State)
      → revoke_family K hash family s ≡ (s', ok tt)
      → IsLinked K hash s
      → IsLinked K hash s'
  revoke_family-IsLinked family s s' e linked h q held other =
      let value = revoked_holds K hash family s s' h (K.smembers (family_key family) s) refl e in
      let names =
        revoked_members K hash family s s' (K.smembers (family_key family) s) refl e other h in
      let before : holds (refresh_key h) s ≡ some (refresh_json q) = ground arith in
      let mine = linked h q before family in
      let yours = linked h q before other in
      ground (arith, eq_iff family other, eq_iff q.family_id family, eq_iff q.family_id other)

  -- A step of the store: an operation that returns no error, or tokens that lapse, which leaves the
  -- others and the sets as they are. A new token's hash stands in no set.
  pub data Step : State → State → Type 0 where
    creates :
        (now : ℕ) (fresh : Option String) (p : RefreshPayload) (token : String) {s s' : State}
        → ((family : String) → contains (members (family_key family) s) (hash token) ≡ false)
        → create K hash now fresh p s ≡ (s', ok token)
        → Step s s'
    marks : (token : String) {s s' : State} → mark_used K hash token s ≡ (s', ok tt) → Step s s'
    revokes :
        (family : String) {s s' : State} → revoke_family K hash family s ≡ (s', ok tt) → Step s s'
    lapses :
        {s s' : State}
        → ((h : String)
            → (holds (refresh_key h) s' ≡ none)
              ⊎ (holds (refresh_key h) s' ≡ holds (refresh_key h) s))
        → ((family h : String)
            → contains (members (family_key family) s') h
              ≡ contains (members (family_key family) s) h)
        → Step s s'

  pub data Reach (s : State) : State → Type 0 where
    here : Reach s s
    next : {t u : State} → Reach s t → Step t u → Reach s u

  Step-IsLinked : {s s' : State} → Step s s' → IsLinked K hash s → IsLinked K hash s'
  Step-IsLinked {s} {s'} (creates now fresh p token unknown e) linked =
      create-IsLinked now fresh p s s' token e unknown linked
  Step-IsLinked {s} {s'} (marks token e) linked = mark_used-IsLinked token s s' e linked
  Step-IsLinked {s} {s'} (revokes family e) linked = revoke_family-IsLinked family s s' e linked
  Step-IsLinked {s} {s'} (lapses left names) linked = λ h q held family. elim (left h) [
    | inl gone ↦ cc
    | inr same ↦ names family h ∙ linked h q (sym same ∙ held) family
  ]

  -- From a store with no token, after any operations that return no error and any lapses, the set of
  -- each family names exactly the tokens of the family among those that the server holds.
  pub Reach-IsLinked :
      {s t : State}
      → ((h : String) → holds (refresh_key h) s ≡ none)
      → Reach s t
      → IsLinked K hash t
  Reach-IsLinked empty here = λ h q held family. let nothing = empty h in cc
  Reach-IsLinked empty (next r st) = Step-IsLinked st (Reach-IsLinked empty r)
