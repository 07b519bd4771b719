-- ===== src/Oidc/Scopes/Narrowing.antt =====
-- What intersecting the granted scopes with the client's present ones gives.
use mathlib.Core.List.{Sublistᴰ}
use schlass.Base.{
  ◌≡◌, refl, ◌&&◌, none, some, [], ◌∷◌, ◌↔◌, String, arith, eq_iff, ap, Bool-cases, inl, inr,
  contains, In, contains_iff,
}
use schlass.Oidc.Scopes.{Scopes, keep_allowed, refuse_empty, intersect_scopes_against_client}

contains-keep_allowed :
    (granted allowed : Scopes) (x : String)
    → contains (keep_allowed granted allowed) x ≡ contains granted x && contains allowed x
unfolding keep_allowed
contains-keep_allowed [] allowed x = refl
contains-keep_allowed (s ∷ granted) allowed x = ground (
  arith,
  contains-keep_allowed granted allowed x,
  eq_iff s x,
  λ (e : s ≡ x). ap (contains allowed) e,
)

keep_allowed-Sublistᴰ : (granted allowed : Scopes) → Sublistᴰ (keep_allowed granted allowed) granted
unfolding keep_allowed
keep_allowed-Sublistᴰ [] allowed = Sublistᴰ.slnil
keep_allowed-Sublistᴰ (s ∷ granted) allowed =
    let ih = keep_allowed-Sublistᴰ granted allowed in
    elim (Bool-cases (contains allowed s)) [
      | inl kept ↦ rw kept (Sublistᴰ.cons-cons refl ih)
      | inr gone ↦ rw gone (Sublistᴰ.cons ih)
    ]

intersect-eq-some :
    (granted allowed : Scopes) {out : Scopes}
    → intersect_scopes_against_client granted allowed ≡ some out
    → keep_allowed granted allowed ≡ out
unfolding intersect_scopes_against_client refuse_empty
intersect-eq-some granted allowed e = ground arith

intersect_none :
    (granted allowed : Scopes)
    → intersect_scopes_against_client granted allowed ≡ none
    → keep_allowed granted allowed ≡ []
unfolding intersect_scopes_against_client refuse_empty
intersect_none granted allowed e = ground arith

In-of_contains :
    (out granted allowed : Scopes) (x : String)
    → contains out x ≡ contains granted x && contains allowed x
    → In x out ↔ (In x granted × In x allowed)
In-of_contains out granted allowed x e =
    let (to, from) = contains_iff out x in
    let (to_g, from_g) = contains_iff granted x in
    let (to_a, from_a) = contains_iff allowed x in
    (
      λ i. let t = from i in (to_g (ground arith), to_a (ground arith)),
      λ p. let g = from_g p.0 in let a = from_a p.1 in to (ground arith),
    )

keep_allowed-In :
    (granted allowed : Scopes) (x : String)
    → In x (keep_allowed granted allowed) ↔ (In x granted × In x allowed)
keep_allowed-In granted allowed x =
    In-of_contains (keep_allowed granted allowed) granted allowed x
      (contains-keep_allowed granted allowed x)

-- Of an intersection that is not refused: a scope is in it exactly when it was granted and the
-- client is still allowed it, and the scopes stand in the order in which they were granted.
pub intersect-narrows :
    (granted allowed : Scopes) {out : Scopes}
    → intersect_scopes_against_client granted allowed ≡ some out
    → ((x : String) → In x out ↔ (In x granted × In x allowed)) × Sublistᴰ out granted
intersect-narrows granted allowed e =
    rw (← intersect-eq-some granted allowed e)
      (keep_allowed-In granted allowed, keep_allowed-Sublistᴰ granted allowed)

none_of_empty :
    (granted allowed : Scopes)
    → ((x : String) → In x (keep_allowed granted allowed) → ⊥)
    → intersect_scopes_against_client granted allowed ≡ none
unfolding intersect_scopes_against_client
none_of_empty granted allowed h = refused_without_scope (keep_allowed granted allowed) h
  where
    refused_without_scope : (out : Scopes) → ((x : String) → In x out → ⊥) → refuse_empty out ≡ none
    refused_without_scope [] k = unfold refuse_empty in refl
    refused_without_scope (s ∷ out) k = absurd (k s (inl refl))

-- The intersection is refused exactly when no scope is both granted and still allowed.
pub intersect-eq-none_iff :
    (granted allowed : Scopes)
    → (intersect_scopes_against_client granted allowed ≡ none)
      ↔ ((x : String) → In x granted → In x allowed → ⊥)
intersect-eq-none_iff granted allowed = (
  λ e x g a.
      rw (intersect_none granted allowed e) at ((keep_allowed-In granted allowed x).1 (g, a)),
  λ h.
      none_of_empty granted allowed
        λ x i. let (g, a) = (keep_allowed-In granted allowed x).0 i in h x g a,
)
