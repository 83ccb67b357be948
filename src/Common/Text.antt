-- ===== src/Common/Text.antt =====
-- Texts: `String(n)` and `Number(text)` for natural numbers, code points, and the last piece of a text
-- that is split.
use Prim.Native.Char.{Char, code}
use rendition.Common.Tests.{if◌then◌else◌, ltb, leb, ◌==◌, nat_eq, Bool-cases}
use Prim.Native.Nat.{ℕ, zero, suc, ◌+◌, ◌-◌, ◌*◌, ◌/◌, ◌%◌, ◌<◌}
use Prim.Native.String.{String}
use mathlib.Core.Path.{◌≡◌, refl, ap, ◌∙◌}
use mathlib.Core.Logic.{inl, inr}
use mathlib.Core.Bool.{◌&&◌}
use mathlib.Core.Option.{Option, none, some}
use mathlib.Core.List.{List, [], ◌∷◌}
use native.Mathlib.Omega.{arith}

-- One decimal digit.
abbrev digit_text : ℕ → Char
digit_text zero = "0"
digit_text (suc zero) = "1"
digit_text (suc (suc zero)) = "2"
digit_text (suc (suc (suc zero))) = "3"
digit_text (suc (suc (suc (suc zero)))) = "4"
digit_text (suc (suc (suc (suc (suc zero))))) = "5"
digit_text (suc (suc (suc (suc (suc (suc zero)))))) = "6"
digit_text (suc (suc (suc (suc (suc (suc (suc zero))))))) = "7"
digit_text (suc (suc (suc (suc (suc (suc (suc (suc zero)))))))) = "8"
digit_text _ = "9"

-- Digits of `n` in front of `out`; the fuel `n + 1` is more than the number of digits.
show_digits : ℕ → ℕ → String → String
show_digits zero n out = out
show_digits (suc fuel) n out =
    let rest = show_digits fuel (n / 10) (String.◌∷◌ (digit_text (n % 10)) out) in
    if ltb n 10 then String.◌∷◌ (digit_text n) out else rest

-- String(n), `${n}`
unfoldable pub show : ℕ → String
unfolding show_digits
show n = show_digits (suc n) n ""

-- The code points of a text.
abbrev pub codes : String → List ℕ
codes String.[] = []
codes (String.◌∷◌ c s) = code c ∷ codes s

-- text.split(separator).pop(): what stands behind the last separator, or the whole text.
unfoldable pub last_segment : ℕ → List ℕ → List ℕ → List ℕ
last_segment separator segment [] = segment
last_segment separator segment (c ∷ cs) =
    last_segment separator (if c == separator then cs else segment) cs

-- Number(text) of a text of decimal digits; `none` is NaN. Signs, points and blanks are not read.
read_digits : ℕ → List ℕ → Option ℕ
read_digits n [] = some n
read_digits n (c ∷ cs) =
    let rest = read_digits (n * 10 + (c - b'0')) cs in
    if leb b'0' c && leb c b'9' then rest else none

unfoldable pub number_of : String → Option ℕ
unfolding read_digits
number_of text = read_digits 0 (codes text)

code-digit_text : (d : ℕ) → d < 10 → code (digit_text d) ≡ b'0' + d
code-digit_text zero h = refl
code-digit_text (suc zero) h = refl
code-digit_text (suc (suc zero)) h = refl
code-digit_text (suc (suc (suc zero))) h = refl
code-digit_text (suc (suc (suc (suc zero)))) h = refl
code-digit_text (suc (suc (suc (suc (suc zero))))) h = refl
code-digit_text (suc (suc (suc (suc (suc (suc zero)))))) h = refl
code-digit_text (suc (suc (suc (suc (suc (suc (suc zero))))))) h = refl
code-digit_text (suc (suc (suc (suc (suc (suc (suc (suc zero)))))))) h = refl
code-digit_text (suc (suc (suc (suc (suc (suc (suc (suc (suc zero))))))))) h = refl
code-digit_text (suc (suc (suc (suc (suc (suc (suc (suc (suc (suc d)))))))))) h =
    absurd (omega arith)

read_digit :
    (n d : ℕ) (s : String)
    → d < 10
    → read_digits n (codes (String.◌∷◌ (digit_text d) s)) ≡ read_digits (n * 10 + d) (codes s)
unfolding read_digits
read_digit n d s h = ground (arith, code-digit_text d h)

read-show_digits :
    (fuel n : ℕ) (out : String)
    → n < fuel
    → read_digits 0 (codes (show_digits fuel n out)) ≡ read_digits n (codes out)
unfolding show_digits
read-show_digits zero n out h = absurd (omega arith)
read-show_digits (suc fuel) n out h = elim (Bool-cases (ltb n 10)) [
  | inl small ↦
      let alone : 0 * 10 + n ≡ n = omega arith in
      rw small (read_digit 0 n out (ground arith) ∙ ap (λ m. read_digits m (codes out)) alone)
  | inr large ↦
      let whole : n / 10 * 10 + n % 10 ≡ n = omega arith in
      rw large (
        read-show_digits fuel (n / 10) (String.◌∷◌ (digit_text (n % 10)) out) (ground arith)
        ∙ read_digit (n / 10) (n % 10) out (omega arith)
        ∙ ap (λ m. read_digits m (codes out)) whole)
]

-- A number that is written is read back.
pub number_of-show : (n : ℕ) → number_of (show n) ≡ some n
unfolding number_of show
number_of-show n = read-show_digits (suc n) n "" (omega arith)
