-- ===== src/Base/Ascii.antt =====
-- Texts from ASCII codes.
use Prim.Native.Nat.{ℕ, ◌<◌}
use Prim.Native.Char.{Char, char, code, nul, IsScalar}
use Prim.Native.String.{String}
use mathlib.Core.Path.{◌≡◌, refl}
use mathlib.Core.Logic.{dite}
use mathlib.Core.List.{List, [], ◌∷◌}
use native.Mathlib.Omega.{arith}
use native.Mathlib.Decide.{dec_lt}
use prov_go.Base.Lists.{All}
use prov_go.Base.Text.{codes}

pub IsScalar-ascii : (n : ℕ) → n < 128 → IsScalar n
IsScalar-ascii n h = ground arith

-- Any other code is NUL.
ascii : ℕ → Char
ascii n = dite (dec_lt n 128) (λ h. char n (IsScalar-ascii n h)) (λ _. nul)

code_dite :
    (n : ℕ) (d : Dec (n < 128))
    → n < 128
    → code (dite d (λ h. char n (IsScalar-ascii n h)) (λ _. nul)) ≡ n
code_dite n (yes p) h = refl
code_dite n (no p) h = absurd (p h)

code-ascii : (n : ℕ) → n < 128 → code (ascii n) ≡ n
unfolding ascii
code-ascii n h = code_dite n (dec_lt n 128) h

unfoldable pub text_of : List ℕ → String
unfolding ascii dec_lt
text_of [] = String.[]
text_of (c ∷ s) = String.◌∷◌ (ascii c) (text_of s)

pub codes-text_of : (s : List ℕ) → All (λ c. c < 128) s → codes (text_of s) ≡ s
unfolding text_of
codes-text_of [] h = refl
codes-text_of (c ∷ s) h = rw (code-ascii c (h.0), codes-text_of s (h.1))
