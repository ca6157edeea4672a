-- ===== src/Base/Decimal.antt =====
-- `%d` of `fmt.Sprintf` for a number that is not negative, and the number that a numeral denotes.
use Prim.Native.Nat.{ℕ, zero, suc, ◌+◌, ◌-◌, ◌*◌, ◌/◌, ◌%◌, ◌<◌}
use mathlib.Core.Path.{◌≡◌, refl, sym, ap, ◌∙◌}
use mathlib.Core.Logic.{inl, inr}
use mathlib.Core.List.{[], ◌∷◌, ◌++◌}
use mathlib.Core.Bool.{false}
use native.Mathlib.Omega.{arith}
use nbterminal.Base.Tests.{ltb, ltb→lt, if◌then◌else◌, Bool-cases}
use nbterminal.Base.Strings.{Text, is_space}

-- The digits, most significant first; `n + 1` rounds are enough, since `n` falls in each.
digits : ℕ → ℕ → Text
digits zero n = []
digits (suc f) n =
    let rest = digits f (n / 10) in if ltb n 10 then (48 + n) ∷ [] else rest ++ (48 + n % 10) ∷ []

unfoldable pub decimal : ℕ → Text
unfolding digits
decimal n = digits (suc n) n

value_from : ℕ → Text → ℕ
value_from acc [] = acc
value_from acc (c ∷ s) = value_from (acc * 10 + (c - 48)) s

value_from-append :
    (acc : ℕ) (s t : Text) → value_from acc (s ++ t) ≡ value_from (value_from acc s) t
unfolding value_from
value_from-append acc [] t = refl
value_from-append acc (c ∷ s) t = value_from-append (acc * 10 + (c - 48)) s t

value_from-digits : (f n : ℕ) → n < f → value_from 0 (digits f n) ≡ n
unfolding value_from digits
value_from-digits zero n h = elim h [ ]
value_from-digits (suc f) n h = elim (Bool-cases (ltb n 10)) [
  | inl e ↦ rw e (omega arith)
  | inr e ↦ rw e (
      rw (value_from-append 0 (digits f (n / 10)) ((48 + n % 10) ∷ []))
        (rw (value_from-digits f (n / 10) (ground arith)) (omega arith)))
]

-- Different numbers are written differently.
pub decimal-injective : (a b : ℕ) → decimal a ≡ decimal b → a ≡ b
unfolding decimal
decimal-injective a b h =
    sym (value_from-digits (suc a) a (omega arith))
    ∙ ap (value_from 0) h
    ∙ value_from-digits (suc b) b (omega arith)

digit_not_space : (k : ℕ) → k < 10 → is_space (48 + k) ≡ false
unfolding is_space
digit_not_space k h = ground arith

digits_end :
    (f n : ℕ) → (s : Text) × (d : ℕ) × (digits (suc f) n ≡ s ++ d ∷ []) × (is_space d ≡ false)
unfolding digits
digits_end f n = elim (Bool-cases (ltb n 10)) [
  | inl e ↦ ([], 48 + n, rw e refl, digit_not_space n (ltb→lt n 10 e))
  | inr e ↦ (digits f (n / 10), 48 + n % 10, rw e refl, digit_not_space (n % 10) (omega arith))
]

-- A numeral ends with a digit.
pub decimal_end : (n : ℕ) → (s : Text) × (d : ℕ) × (decimal n ≡ s ++ d ∷ []) × (is_space d ≡ false)
unfolding decimal
decimal_end n = digits_end n n
