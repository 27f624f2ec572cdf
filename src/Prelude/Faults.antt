-- ===== src/Prelude/Faults.antt =====
-- State passing with faults: `none` is a use of something that is not there any more.
use mathlib.Core.Option.{Option, none, some}
use mathlib.Core.Path.{◌≡◌, subst}

abbrev pub M : Type 0 → Type 0 → Type 0
M S A = S → Option (A × S)

infixl 5 ◌>>=◌ ◌>>◌
abbrev pub ◌>>=◌ : {S A B : Type 0} → M S A → (A → M S B) → M S B
◌>>=◌ m f s = elim (m s) [ none ↦ none | some (a, s') ↦ f a s' ]

abbrev pub ◌>>◌ : {S A B : Type 0} → M S A → M S B → M S B
m >> k = m >>= λ _. k

abbrev pub pure : {S A : Type 0} → A → M S A
pure a s = some (a, s)

-- No fault, and the result and the state satisfy `P`.
abbrev pub Ensures : {S A : Type 0} → (A → S → Type 0) → Option (A × S) → Type 0
Ensures P none = ⊥
Ensures P (some (a, s)) = P a s

pub Ensures-bind :
    {S A B : Type 0} (Q : A → S → Type 0) (P : B → S → Type 0) (m : Option (A × S)) (f : A → M S B)
    → Ensures Q m
    → ((a : A) (s : S) → Q a s → Ensures P (f a s))
    → Ensures P (elim m [ none ↦ none | some (a, s) ↦ f a s ])
Ensures-bind Q P none f h k = absurd h
Ensures-bind Q P (some (a, s)) f h k = k a s h

pub Ensures-map :
    {S A : Type 0} (Q P : A → S → Type 0) (m : Option (A × S))
    → Ensures Q m
    → ((a : A) (s : S) → Q a s → P a s)
    → Ensures P m
Ensures-map Q P none h k = absurd h
Ensures-map Q P (some (a, s)) h k = k a s h

abbrev pub fault : {S A : Type 0} → M S A
fault s = none

-- If there is no fault, the result and the state satisfy `P`.
abbrev pub Allows : {S A : Type 0} → (A → S → Type 0) → Option (A × S) → Type 0
Allows P none = Unit {0}
Allows P (some (a, s)) = P a s

pub Allows-bind :
    {S A B : Type 0} (Q : A → S → Type 0) (P : B → S → Type 0) (m : Option (A × S)) (f : A → M S B)
    → Allows Q m
    → ((a : A) (s : S) → Q a s → Allows P (f a s))
    → Allows P (elim m [ none ↦ none | some (a, s) ↦ f a s ])
Allows-bind Q P none f h k = tt
Allows-bind Q P (some (a, s)) f h k = k a s h

-- Where nothing is asked of the result of the first part.
pub Allows-then :
    {S A B : Type 0} (P : B → S → Type 0) (m : Option (A × S)) (f : A → M S B)
    → ((a : A) (s : S) → Allows P (f a s))
    → Allows P (elim m [ none ↦ none | some (a, s) ↦ f a s ])
Allows-then P none f k = tt
Allows-then P (some (a, s)) f k = k a s

pub Allows-some :
    {S A : Type 0} (P : A → S → Type 0) (m : Option (A × S)) {a : A} {s : S}
    → Allows P m
    → m ≡ some (a, s)
    → P a s
Allows-some P m h e = subst (Allows P) e h
