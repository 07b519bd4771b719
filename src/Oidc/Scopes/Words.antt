-- ===== src/Oidc/Scopes/Words.antt =====
-- The scope string of a token, read back.
use schlass.Base.{◌≡◌, refl, [], ◌∷◌, ap, ◌∙◌, All, fields, fields-word, fields-word_space, IsWord}
use schlass.Oidc.Scopes.{Scopes, to_string}

-- strings.Fields undoes Scopes.String where each scope is a nonempty text without white space, as
-- each scope is that ValidateScopes accepts.
pub fields-to_string : (ss : Scopes) → All IsWord ss → fields (to_string ss) ≡ ss
unfolding to_string
fields-to_string [] h = unfold fields in refl
fields-to_string (s ∷ []) (h, _) = fields-word s h
fields-to_string (s ∷ t ∷ ss) (h, hs) =
    fields-word_space s (to_string (t ∷ ss)) h ∙ ap (λ r. s ∷ r) (fields-to_string (t ∷ ss) hs)
