-- ===== src/Prelude/Decimal.antt =====
-- Numbers written in decimal, and that no two numbers are written alike.
use Prim.Native.Char.{Char, code}
use Prim.Native.String.{String, ◌++◌}
use text.Mathlib.TextLemmas.{nil-append, cons-append}
use cozyssh.Prelude.Tests.{if◌then◌else◌, ltb, Bool-cases}
use Prim.Native.Nat.{ℕ, zero, suc, ◌+◌, ◌-◌, ◌*◌, ◌/◌, ◌%◌, ◌<◌}
use mathlib.Core.Path.{◌≡◌, refl, sym, ap, ◌∙◌}
use mathlib.Core.Logic.{inl, inr}
use native.Mathlib.Omega.{arith}

abbrev digit : ℕ → Char
digit zero = "0"
digit (suc zero) = "1"
digit (suc (suc zero)) = "2"
digit (suc (suc (suc zero))) = "3"
digit (suc (suc (suc (suc zero)))) = "4"
digit (suc (suc (suc (suc (suc zero))))) = "5"
digit (suc (suc (suc (suc (suc (suc zero)))))) = "6"
digit (suc (suc (suc (suc (suc (suc (suc zero))))))) = "7"
digit (suc (suc (suc (suc (suc (suc (suc (suc zero)))))))) = "8"
digit (suc (suc (suc (suc (suc (suc (suc (suc (suc n))))))))) = "9"

pub decimal_from : ℕ → ℕ → String
decimal_from zero n = ""
decimal_from (suc fuel) n =
    let front = decimal_from fuel (n / 10) in
    if ltb n 10 then String.◌∷◌ (digit n) "" else front ++ String.◌∷◌ (digit (n % 10)) ""

-- A number has no more digits than its value and one.
unfoldable pub decimal : ℕ → String
unfolding decimal_from
decimal n = decimal_from (n + 1) n

-- The number that a text of digits stands for.
unfoldable pub read : ℕ → String → ℕ
read acc String.[] = acc
read acc (String.◌∷◌ c s) = read (acc * 10 + (code c - b'0')) s

read-append_one :
    (acc : ℕ) (s : String) (c : Char)
    → read acc (s ++ String.◌∷◌ c "") ≡ read acc s * 10 + (code c - b'0')
unfolding read
read-append_one acc String.[] c = rw (nil-append (String.◌∷◌ c "")) refl
read-append_one acc (String.◌∷◌ d s) c =
    rw (cons-append d s (String.◌∷◌ c "")) (read-append_one (acc * 10 + (code d - b'0')) s c)

code-digit : (n : ℕ) → n < 10 → code (digit n) - b'0' ≡ n
code-digit zero h = refl
code-digit (suc zero) h = refl
code-digit (suc (suc zero)) h = refl
code-digit (suc (suc (suc zero))) h = refl
code-digit (suc (suc (suc (suc zero)))) h = refl
code-digit (suc (suc (suc (suc (suc zero))))) h = refl
code-digit (suc (suc (suc (suc (suc (suc zero)))))) h = refl
code-digit (suc (suc (suc (suc (suc (suc (suc zero))))))) h = refl
code-digit (suc (suc (suc (suc (suc (suc (suc (suc zero)))))))) h = refl
code-digit (suc (suc (suc (suc (suc (suc (suc (suc (suc n))))))))) h = omega arith

code_alone : (n : ℕ) → n < 10 → read 0 (String.◌∷◌ (digit n) "") ≡ n
unfolding read
code_alone n h = omega (arith, code-digit n h)

read-decimal_from : (fuel n : ℕ) → n < fuel → read 0 (decimal_from fuel n) ≡ n
unfolding decimal_from
read-decimal_from zero n h = absurd (omega arith)
read-decimal_from (suc fuel) n h = elim (Bool-cases (ltb n 10)) [
  | inl small ↦ rw small (code_alone n (ground arith))
  | inr large ↦ rw large (
      read-append_one 0 (decimal_from fuel (n / 10)) (digit (n % 10))
      ∙ rw (read-decimal_from fuel (n / 10) (ground arith), code-digit (n % 10) (omega arith))
          (omega arith))
]

pub decimal_inj : (m n : ℕ) → decimal m ≡ decimal n → m ≡ n
unfolding decimal
decimal_inj m n e =
    sym (read-decimal_from (m + 1) m (omega arith))
    ∙ ap (read 0) e
    ∙ read-decimal_from (n + 1) n (omega arith)

pub read-decimal : (n : ℕ) → read 0 (decimal n) ≡ n
unfolding decimal
read-decimal n = read-decimal_from (n + 1) n (omega arith)
