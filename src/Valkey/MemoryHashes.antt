-- ===== src/Valkey/MemoryHashes.antt =====
-- The commands on hashes of the server in memory.
use schlass.Base.{
  ℤ, ◌+ℤ◌, or_zero, Bool, true, false, ◌&&◌, ◌≡◌, refl, sym, ◌∙◌, ◌⊎◌, inl, inr, Option, none, some,
  List, String, ◌==◌, if◌then◌else◌, ap,
}
use text.Mathlib.TextPositions.{eq_refl}
use schlass.Valkey.Keys.{
  Key, refresh_key, family_key, session_key, user_sessions_key, user_revoke_key, client_revoke_key,
  token_rate_key, enroll_key, challenge_key, same_key,
}
use schlass.Valkey.Server.{Reply, found, missing, deletes}
use schlass.Valkey.Hashes.{FieldValue, put_texts, put_numbers, or_empty, Hashes}
use schlass.Valkey.Memory.{Cells, in_memory}

abbrev text_reply : Option String → Reply String
text_reply none = missing
text_reply (some v) = found v

pub text_found : (o : Option String) (v : String) → text_reply o ≡ found v → o ≡ some v
text_found none v e = cc
text_found (some w) v e = cc

abbrev same_field : Key → Key → String → String → Bool
same_field k j f g = same_key k j && f == g

abbrev hset_cells : Key → List (String × FieldValue) → Cells → Cells
hset_cells k fs s = record s {
  texts = λ j f. if same_key k j then put_texts fs f (s.texts j f) else s.texts j f;
  numbers = λ j f. if same_key k j then put_numbers fs f (s.numbers j f) else s.numbers j f;
}

abbrev hincr_cells : Key → String → ℤ → Cells → Cells
hincr_cells k f d s = record s {
  numbers =
      λ j g. if same_field k j f g then some (or_zero (s.numbers k f) +ℤ d) else s.numbers j g;
}

abbrev field_of : String → Reply (String → String) → String
field_of f (found m) = m f
field_of f _ = ""

pub all_fields : (held m : String → String) → found held ≡ found m → (f : String) → m f ≡ held f
all_fields held m e f = ap (field_of f) (sym e)

same_key_refl : (k : Key) → same_key k k ≡ true
same_key_refl (refresh_key t) = eq_refl t
same_key_refl (family_key t) = eq_refl t
same_key_refl (session_key t) = eq_refl t
same_key_refl (user_sessions_key t) = eq_refl t
same_key_refl (user_revoke_key t) = eq_refl t
same_key_refl (client_revoke_key t) = eq_refl t
same_key_refl (token_rate_key t) = eq_refl t
same_key_refl (enroll_key t) = eq_refl t
same_key_refl (challenge_key t) = eq_refl t

same_field_refl : (k : Key) (f : String) → same_field k k f f ≡ true
same_field_refl k f = rw (same_key_refl k, eq_refl f) refl

counted :
    (k : Key) (f : String) (d : ℤ) (s : Cells)
    → (hincr_cells k f d s).numbers k f ≡ some (or_zero (s.numbers k f) +ℤ d)
counted k f d s = rw (same_field_refl k f) refl

pub answered :
    (k : Key) (f : String) (d : ℤ) (s : Cells) (n : ℤ)
    → some (or_zero (s.numbers k f) +ℤ d) ≡ some n
    → (n ≡ or_zero (s.numbers k f) +ℤ d) × ((hincr_cells k f d s).numbers k f ≡ some n)
answered k f d s n e = let is = counted k f d s in (cc, is ∙ e)

pub other_field :
    (k : Key) (f : String) (d : ℤ) (s : Cells) (j : Key) (g : String)
    → same_field k j f g ≡ false
    → (hincr_cells k f d s).numbers j g ≡ s.numbers j g
other_field k f d s j g other = rw other refl

pub not_none : {n : ℤ} {P : Type 0} → some n ≡ none → P
not_none e = cc

pub kept_or_gone :
    (gone : Bool) (o : Option ℤ)
    → ((if gone then none else o) ≡ o) ⊎ ((if gone then none else o) ≡ none)
kept_or_gone true o = inr refl
kept_or_gone false o = inl refl

abbrev pub memory_hashes : Hashes in_memory
memory_hashes = record {
  text = λ k f s. s.texts k f;
  number = λ k f s. s.numbers k f;
  hget = λ k f s. text_reply (s.texts k f);
  hgetall = λ k s. found (λ f. or_empty (s.texts k f));
  hset = λ k fs s. (hset_cells k fs s, true);
  hincr = λ k f d s. (hincr_cells k f d s, some (or_zero (s.numbers k f) +ℤ d));
  hget_found = λ k f s v e. text_found (s.texts k f) v e;
  hgetall_found = λ k s m e f. all_fields (λ g. or_empty (s.texts k g)) m e f;
  hset_text = λ k fs s e j f. refl;
  hset_number = λ k fs s e j f. refl;
  hincr_some = λ k f d s n e. answered k f d s n e;
  hincr_none = λ k f d s e. not_none e;
  hincr_other = λ k f d s j g e. other_field k f d s j g e;
  pipe_number = λ cs k f s. kept_or_gone (deletes k cs) (s.numbers k f);
}
