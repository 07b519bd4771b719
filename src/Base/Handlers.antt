-- ===== src/Base/Handlers.antt =====
-- A request handler: it passes a state on, and goes on with a value or has replied. What follows an early
-- `return` is not run, and the state that was reached stays.
use mathlib.Core.Path.{◌≡◌, refl}
use mathlib.Core.Bool.{Bool, true, false}
use mathlib.Core.Option.{Option, none, some}

pub data Outcome (R A : Type 0) : Type 0 where
  next : A → Outcome R A
  reply : R → Outcome R A

abbrev pub Handler : Type 0 → Type 0 → Type 0 → Type 0
Handler S R A = S → S × Outcome R A

abbrev pub go_on : {S R A B : Type 0} → S × Outcome R A → (A → Handler S R B) → S × Outcome R B
go_on (s, next a) f = f a s
go_on (s, reply r) f = (s, reply r)

infixl 5 ◌>>=◌ ◌>>◌
abbrev pub ◌>>=◌ : {S R A B : Type 0} → Handler S R A → (A → Handler S R B) → Handler S R B
◌>>=◌ m f s = go_on (m s) f

abbrev pub ◌>>◌ : {S R B : Type 0} → Handler S R (Unit {0}) → Handler S R B → Handler S R B
◌>>◌ m k s = go_on (m s) (λ _. k)

abbrev pub respond : {S R A : Type 0} → R → Handler S R A
respond r s = (s, reply r)

abbrev pub give : {S R A : Type 0} → A → Handler S R A
give a s = (s, next a)

-- if !condition { reply; return }
abbrev pub ensure : {S R : Type 0} → Bool → R → Handler S R (Unit {0})
ensure true r s = (s, next tt)
ensure false r s = (s, reply r)

-- The value, or an early reply where there is none.
abbrev pub value_or : {S R A : Type 0} → Option A → R → Handler S R A
value_or none r s = (s, reply r)
value_or (some a) r s = (s, next a)

-- What holds where a handler goes on, and where it has replied.
abbrev pub Ends : {S R A : Type 0} → (A → S → Type 0) → (R → S → Type 0) → S × Outcome R A → Type 0
Ends P Q (s, next a) = P a s
Ends P Q (s, reply r) = Q r s

-- The rule of sequence.
pub Ends-go_on :
    {S R A B : Type 0} (P : A → S → Type 0) (P' : B → S → Type 0) (Q : R → S → Type 0)
    (m : S × Outcome R A) (f : A → Handler S R B)
    → Ends P Q m
    → ((a : A) (s : S) → P a s → Ends P' Q (f a s))
    → Ends P' Q (go_on m f)
Ends-go_on P P' Q (s, next a) f h k = k a s h
Ends-go_on P P' Q (s, reply r) f h k = h

-- The same for a handler that always replies, with one condition for all replies.
pub Ends-then :
    {S R A : Type 0} (P : A → S → Type 0) (Q : R → S → Type 0) (m : S × Outcome R A)
    (f : A → Handler S R ⊥)
    → Ends P Q m
    → ((a : A) (s : S) → P a s → Ends {A = ⊥} (λ _ _. ⊥) Q (f a s))
    → Ends {A = ⊥} (λ _ _. ⊥) Q (go_on m f)
Ends-then P Q m f h k = Ends-go_on P (λ _ _. ⊥) Q m f h k

-- The rule of consequence, for the replies.
pub Ends-weaken :
    {S R A : Type 0} (P : A → S → Type 0) (Q Q' : R → S → Type 0) (m : S × Outcome R A)
    → ((r : R) (s : S) → Q r s → Q' r s)
    → Ends P Q m
    → Ends P Q' m
Ends-weaken P Q Q' (s, next a) q h = h
Ends-weaken P Q Q' (s, reply r) q h = q r s h

pub Ends-map :
    {S R A : Type 0} (P P' : A → S → Type 0) (Q Q' : R → S → Type 0) (m : S × Outcome R A)
    → ((a : A) (s : S) → P a s → P' a s)
    → ((r : R) (s : S) → Q r s → Q' r s)
    → Ends P Q m
    → Ends P' Q' m
Ends-map P P' Q Q' (s, next a) p q h = p a s h
Ends-map P P' Q Q' (s, reply r) p q h = q r s h

-- A handler that replied, read off its result.
pub Ends-reply :
    {S R A : Type 0} (P : A → S → Type 0) (Q : R → S → Type 0) (m : S × Outcome R A) {s : S} {r : R}
    → m ≡ (s, reply r)
    → Ends P Q m
    → Q r s
Ends-reply P Q m e h = rw e at h

-- A handler that went on, read off its result.
pub Ends-next :
    {S R A : Type 0} (P : A → S → Type 0) (Q : R → S → Type 0) (m : S × Outcome R A) {s : S} {a : A}
    → m ≡ (s, next a)
    → Ends P Q m
    → P a s
Ends-next P Q m e h = rw e at h

-- The two early replies: what is known where the handler goes on.
pub Ends-ensure :
    {S R : Type 0} (b : Bool) (r : R) (s : S)
    → Ends (λ _ s'. (b ≡ true) × (s' ≡ s)) (λ _ _. Unit {0}) (ensure b r s)
Ends-ensure true r s = (refl, refl)
Ends-ensure false r s = tt

pub Ends-value_or :
    {S R A : Type 0} (o : Option A) (r : R) (s : S)
    → Ends (λ a s'. (o ≡ some a) × (s' ≡ s)) (λ _ _. Unit {0}) (value_or o r s)
Ends-value_or none r s = tt
Ends-value_or (some a) r s = (refl, refl)

-- What holds of every reply of a handler that always replies holds of the state that it leaves.
pub Ends-always :
    {S R : Type 0} (Q : S → Type 0) (m : S × Outcome R ⊥) → Ends (λ _ _. ⊥) (λ _ s. Q s) m → Q m.0
Ends-always Q (s, next a) never = absurd never
Ends-always Q (s, reply r) h = h
