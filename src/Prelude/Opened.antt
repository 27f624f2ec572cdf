-- ===== src/Prelude/Opened.antt =====
-- Lists of the handles that a client library has given out and that are not given back.
use Prim.Native.Nat.{ℕ}
use mathlib.Core.Bool.{Bool, true, false, ◌||◌}
use mathlib.Core.List.{List, [], ◌∷◌}
use mathlib.Core.Option.{Option, none, some}
use mathlib.Core.Path.{◌≡◌}
use native.Mathlib.Omega.{arith}
use libdbi_drivers.Prelude.Tests.{◌==◌, if◌then◌else◌}

abbrev pub is_open : List ℕ → ℕ → Bool
is_open [] h = false
is_open (x ∷ xs) h = x == h || is_open xs h

abbrev pub without : List ℕ → ℕ → List ℕ
without [] h = []
without (x ∷ xs) h = if x == h then xs else x ∷ without xs h

-- The handles that a connection holds.
abbrev pub handles : Option ℕ → List ℕ
handles none = []
handles (some h) = h ∷ []

pub is_open_self : (h : ℕ) → is_open (h ∷ []) h ≡ true
is_open_self h = ground arith

pub without_self : (h : ℕ) (hs : List ℕ) → without (h ∷ hs) h ≡ hs
without_self h hs = ground arith
