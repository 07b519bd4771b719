-- ===== src/Base/Text.antt =====
-- What the program uses of Go's package strings, over native texts: Fields, TrimSpace,
-- ContainsAny, Contains of one character, Join of two texts.
use Prim.Native.Char.{Char, code}
use Prim.Native.String
use Prim.Native.String.{String, [], ◌∷◌}
use mathlib.Core.Path.{◌≡◌, sym, ap, ◌∙◌}
use mathlib.Core.Bool.{Bool, true, false, ◌||◌, ◌&&◌}
use mathlib.Core.List.{List}
use mathlib.Core.Logic.{◌≢◌}
use native.Mathlib.Omega.{arith}
use Prim.Native.Nat.{ℕ, ◌+◌}
use text.Mathlib.Text.{◌==◌}
use text.Mathlib.TextEquality.{eq_iff}
use text.Mathlib.TextLemmas.{nil-append, cons-append, append_assoc, append-nil}
use schlass.Base.Tests.{leb, nat_eq, if◌then◌else◌}

infixr 66 ◌⧺◌
abbrev pub ◌⧺◌ : String → String → String
s ⧺ t = String.◌++◌ s t

-- unicode.IsSpace
unfoldable pub is_space : ℕ → Bool
is_space c =
    (leb 9 c && leb c 13)
    || nat_eq c 32
    || nat_eq c 0x85
    || nat_eq c 0xa0
    || nat_eq c 0x1680
    || (leb 0x2000 c && leb c 0x200a)
    || nat_eq c 0x2028
    || nat_eq c 0x2029
    || nat_eq c 0x202f
    || nat_eq c 0x205f
    || nat_eq c 0x3000

-- strings.Contains of a text of one character, which has the code `want`.
unfoldable pub has_char : ℕ → String → Bool
has_char want [] = false
has_char want (c ∷ s) = nat_eq (code c) want || has_char want s

-- len of a Go string: the bytes of its UTF-8 encoding.
unfoldable pub byte_len : String → ℕ
byte_len [] = 0
byte_len (c ∷ s) =
    (if leb (code c) 0x7f
      then 1
      else (if leb (code c) 0x7ff then 2 else (if leb (code c) 0xffff then 3 else 4)))
    + byte_len s

-- strings.TrimSpace
trim_left : String → String
trim_left [] = ""
trim_left (c ∷ s) = let rest = trim_left s in if is_space (code c) then rest else c ∷ s

trim_right : String → String
trim_right [] = ""
trim_right (c ∷ s) =
    let rest = trim_right s in if rest == "" && is_space (code c) then "" else c ∷ rest

unfoldable pub trim_space : String → String
unfolding trim_left trim_right is_space
trim_space s = trim_right (trim_left s)

abbrev push : String → Char → String
push s c = s ⧺ (c ∷ [])

-- A word that is complete goes before the words after it; an empty one is none.
abbrev word_before : String → List String → List String
word_before cur words = if cur == "" then words else List.◌∷◌ cur words

fields_from : String → String → List String
fields_from cur [] = word_before cur List.[]
fields_from cur (c ∷ s) =
    let after = word_before cur (fields_from "" s) in
    let longer = fields_from (push cur c) s in if is_space (code c) then after else longer

-- strings.Fields
unfoldable pub fields : String → List String
unfolding fields_from is_space
fields s = fields_from "" s

abbrev pub HasNoSpace : String → Type 0
HasNoSpace [] = Unit
HasNoSpace (c ∷ s) = (is_space (code c) ≡ false) × HasNoSpace s

-- A text that strings.Fields gives back as one word.
abbrev pub IsWord : String → Type 0
IsWord s = (s ≢ "") × HasNoSpace s

unfoldable pub no_space : String → Bool
unfolding is_space
no_space [] = true
no_space (c ∷ s) = if is_space (code c) then false else no_space s

no_space-HasNoSpace : (s : String) → no_space s ≡ true → HasNoSpace s
unfolding no_space
no_space-HasNoSpace [] h = tt
no_space-HasNoSpace (c ∷ s) h = ground (arith, no_space-HasNoSpace s)

-- The test of a word.
pub IsWord-by_test : (s : String) → (s == "") ≡ false → no_space s ≡ true → IsWord s
IsWord-by_test s nonempty h = (λ e. let it = (eq_iff s "").1 e in cc, no_space-HasNoSpace s h)

fields_from_word :
    (cur word rest : String)
    → HasNoSpace word
    → fields_from cur (word ⧺ rest) ≡ fields_from (cur ⧺ word) rest
unfolding fields_from
fields_from_word cur [] rest _ = rw (nil-append, append-nil)
fields_from_word cur (c ∷ word) rest (h, hs) =
    rw (cons-append, h)
      (fields_from_word (push cur c) word rest hs
        ∙ ap (λ t. fields_from t rest)
            (append_assoc cur (c ∷ []) word
              ∙ ap (λ t. cur ⧺ t) (cons-append c [] word ∙ ap (λ t. c ∷ t) (nil-append word))))

fields_from_end : (word : String) → word ≢ "" → fields_from word "" ≡ List.◌∷◌ word List.[]
unfolding fields_from
fields_from_end word h = ground (arith, eq_iff word "")

fields_from_space :
    (word rest : String)
    → word ≢ ""
    → fields_from word (" " ⧺ rest) ≡ List.◌∷◌ word (fields_from "" rest)
unfolding fields_from is_space
fields_from_space word rest h = rw (cons-append, nil-append) (ground (arith, eq_iff word ""))

-- A word, a space, and what follows.
pub fields-word_space :
    (word rest : String) → IsWord word → fields (word ⧺ " " ⧺ rest) ≡ List.◌∷◌ word (fields rest)
unfolding fields
fields-word_space word rest (nonempty, h) =
    fields_from_word "" word (" " ⧺ rest) h ∙ rw nil-append (fields_from_space word rest nonempty)

pub fields-word : (word : String) → IsWord word → fields word ≡ List.◌∷◌ word List.[]
unfolding fields
fields-word word (nonempty, h) =
    ap (fields_from "") (sym (append-nil word))
    ∙ fields_from_word "" word "" h
    ∙ rw nil-append (fields_from_end word nonempty)
