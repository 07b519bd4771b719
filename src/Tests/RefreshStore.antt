-- ===== src/Tests/RefreshStore.antt =====
-- The store of refresh tokens at a token that is rotated and at a family that is revoked.
use schlass.Base.{
  ◌≡◌, ◌≢◌, refl, false, [], ◌∷◌, String, ok, eq_iff, Bool-cases, inl, inr, ◌==◌, some, contains,
}
use schlass.Valkey.Keys.{RefreshPayload, family_key}
use schlass.Valkey.Memory.{Cells, in_memory, empty_cells}
use schlass.Refresh.{create, consume, mark_used, revoke_family}
use schlass.Refresh.Steps.{creates, marks, Reach, here, next}
use schlass.Refresh.Revoked.{at_once, after, Reach-consume-revoke_family}

abbrev pub same_text : String → String
same_text s = s

abbrev pub payload : (family : String) → RefreshPayload
payload family = record {
  user_id = "u1";
  client_id = "app";
  scopes = "openid" ∷ "offline_access" ∷ [];
  family_id = family;
  created_at = 100;
  expires = 3700;
  used = false;
}

-- The store with a token of the family f1, with one of f2 as well, and with the first one used.
abbrev pub one_token : Cells
one_token = (create in_memory same_text 100 (some "r1") (payload "f1") empty_cells).0

abbrev two_tokens : Cells
two_tokens = (create in_memory same_text 100 (some "r9") (payload "f2") one_token).0

abbrev pub one_used : Cells
one_used = (mark_used in_memory same_text "r1" two_tokens).0

one_created :
    create in_memory same_text 100 (some "r1") (payload "f1") empty_cells ≡ (one_token, ok "r1")
unfolding create
one_created = refl

two_created :
    create in_memory same_text 100 (some "r9") (payload "f2") one_token ≡ (two_tokens, ok "r9")
unfolding create
two_created = refl

marked_one : mark_used in_memory same_text "r1" two_tokens ≡ (one_used, ok tt)
unfolding create mark_used
marked_one = refl

not_named_r9 :
    (family : String) → contains (in_memory.members (family_key family) one_token) "r9" ≡ false
unfolding create
not_named_r9 family = elim (Bool-cases ("f1" == family)) [
  | inl mine ↦ rw mine refl
  | inr other ↦ rw other refl
]

pub reached : Reach in_memory same_text empty_cells one_used
reached =
    next
      (next (next here (creates 100 (some "r1") (payload "f1") "r1" (λ family. refl) one_created))
        (creates 100 (some "r9") (payload "f2") "r9" not_named_r9 two_created))
      (marks "r1" marked_one)

abbrev old_text : String
old_text = "r1"

abbrev new_text : String
new_text = "r2"

pub new_is_other : new_text ≢ old_text
new_is_other e = let it = (eq_iff "r2" "r1").1 e in cc

abbrev after_revocation : Cells
after_revocation = (revoke_family in_memory same_text "f1" one_used).0

family_revoked : revoke_family in_memory same_text "f1" one_used ≡ (after_revocation, ok tt)
unfolding revoke_family
family_revoked = refl

-- The revoked token is marked once more, which changes nothing.
abbrev marked_after : Cells
marked_after = (mark_used in_memory same_text "r1" after_revocation).0

marked_again : mark_used in_memory same_text "r1" after_revocation ≡ (marked_after, ok tt)
unfolding mark_used revoke_family create
marked_again = refl

other_family_left : consume in_memory same_text "r9" marked_after ≡ ok (payload "f2")
unfolding create mark_used revoke_family consume
other_family_left = refl

Reach-consume-revoke_family_example : (payload "f2").family_id ≢ "f1"
Reach-consume-revoke_family_example =
    Reach-consume-revoke_family in_memory same_text after_revocation marked_after "f1" (λ h. refl)
      reached family_revoked (after at_once (marks "r1" marked_again) tt) "r9" (payload "f2")
      other_family_left

abbrev rotation_created : Cells
rotation_created = (create in_memory same_text 120 (some "r2") (payload "f1") one_token).0

abbrev rotation_done : Cells
rotation_done = (mark_used in_memory same_text "r1" rotation_created).0

first_given : consume in_memory same_text "r1" one_token ≡ ok (payload "f1")
unfolding create consume
first_given = refl

second_created :
    create in_memory same_text 120 (some "r2") (payload "f1") one_token
    ≡ (rotation_created, ok "r2")
unfolding create
second_created = refl

first_marked : mark_used in_memory same_text "r1" rotation_created ≡ (rotation_done, ok tt)
unfolding create mark_used
first_marked = refl
