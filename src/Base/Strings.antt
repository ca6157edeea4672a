-- ===== src/Base/Strings.antt =====
-- Go strings as the lists of their runes, and what the program uses of package `strings`.
-- A string that is not valid UTF-8 has no counterpart here.
use Prim.Native.Nat.{ℕ, ◌≤◌}
use Prim.Native.Char.{code}
use Prim.Native.String.{String}
use mathlib.Core.Path.{◌≡◌, refl, sym, ap, ◌∙◌}
use mathlib.Core.Logic.{◌≢◌, ◌↔◌, inl, inr}
use mathlib.Core.Bool.{Bool, true, false, ◌&&◌, ◌||◌}
use mathlib.Core.List.{List, [], ◌∷◌, ◌++◌}
use native.Mathlib.Omega.{arith}
use nbterminal.Base.Tests.{leb, ◌==◌, if◌then◌else◌, Bool-cases}
use nbterminal.Base.Lists.{is_nil, length, All}

abbrev pub Text : Type 0
Text = List ℕ

-- The runes of a literal.
abbrev pub codes : String → Text
codes String.[] = []
codes (String.◌∷◌ c s) = code c ∷ codes s

-- `==` on strings.
unfoldable pub text_eq : Text → Text → Bool
text_eq [] [] = true
text_eq (a ∷ s) (b ∷ t) = a == b && text_eq s t
text_eq _ _ = false

-- `unicode.IsSpace`.
unfoldable pub is_space : ℕ → Bool
is_space c =
    (leb 0x09 c && leb c 0x0d)
    || c == 0x20
    || c == 0x85
    || c == 0xa0
    || c == 0x1680
    || (leb 0x2000 c && leb c 0x200a)
    || c == 0x2028
    || c == 0x2029
    || c == 0x202f
    || c == 0x205f
    || c == 0x3000

trim_left : Text → Text
trim_left [] = []
trim_left (c ∷ s) = let rest = trim_left s in if is_space c then rest else c ∷ s

trim_right : Text → Text
trim_right [] = []
trim_right (c ∷ s) = let rest = trim_right s in if is_space c && is_nil rest then [] else c ∷ rest

-- `strings.TrimSpace`.
unfoldable pub trim_space : Text → Text
unfolding trim_left trim_right is_space
trim_space s = trim_right (trim_left s)

-- `strings.TrimSpace(s) == ""`.
unfoldable pub is_blank : Text → Bool
unfolding trim_space
is_blank s = is_nil (trim_space s)

pub text_eq_iff : (s t : Text) → (text_eq s t ≡ true) ↔ (s ≡ t)
unfolding text_eq
text_eq_iff [] [] = (λ _. refl, λ _. refl)
text_eq_iff [] (b ∷ t) = (λ h. cc, λ h. cc)
text_eq_iff (a ∷ s) [] = (λ h. cc, λ h. cc)
text_eq_iff (a ∷ s) (b ∷ t) = ground (arith, text_eq_iff s t)

pub text_eq_refl : (s : Text) → text_eq s s ≡ true
text_eq_refl s = (text_eq_iff s s).1 refl

pub text_eq_of_ne : (s t : Text) → s ≢ t → text_eq s t ≡ false
text_eq_of_ne s t ne = elim (Bool-cases (text_eq s t)) [
  | inl e ↦ absurd (ne ((text_eq_iff s t).0 e))
  | inr e ↦ e
]

trim_left_idem : (s : Text) → trim_left (trim_left s) ≡ trim_left s
unfolding trim_left
trim_left_idem [] = refl
trim_left_idem (c ∷ s) = ground (arith, trim_left_idem s)

trim_right_idem : (s : Text) → trim_right (trim_right s) ≡ trim_right s
unfolding trim_right
trim_right_idem [] = refl
trim_right_idem (c ∷ s) = ground (arith, trim_right_idem s)

length-trim_left : (s : Text) → length (trim_left s) ≤ length s
unfolding trim_left
length-trim_left [] = omega arith
length-trim_left (c ∷ s) = ground (arith, length-trim_left s)

trim_left_fixed : (c : ℕ) (s : Text) → trim_left (c ∷ s) ≡ c ∷ s → is_space c ≡ false
unfolding trim_left
trim_left_fixed c s h = elim (Bool-cases (is_space c)) [
  | inl e ↦ absurd (omega (arith, length-trim_left s, ap length (rw (e, if◌then◌else◌) at h)))
  | inr e ↦ e
]

-- Cutting the end leaves no space at the front of what had none there.
trim_left-trim_right : (s : Text) → trim_left s ≡ s → trim_left (trim_right s) ≡ trim_right s
unfolding trim_left trim_right
trim_left-trim_right [] h = refl
trim_left-trim_right (c ∷ s) h = ground (arith, trim_left_fixed c s h)

pub trim_space_idem : (s : Text) → trim_space (trim_space s) ≡ trim_space s
unfolding trim_space
trim_space_idem s =
    rw (trim_left-trim_right (trim_left s) (trim_left_idem s)) (trim_right_idem (trim_left s))

trim_left-trim_space : (s : Text) → trim_left (trim_space s) ≡ trim_space s
unfolding trim_space
trim_left-trim_space s = trim_left-trim_right (trim_left s) (trim_left_idem s)

-- A trimmed text does not begin with a space.
pub trim_space_front : (s : Text) (c : ℕ) (t : Text) → trim_space s ≡ c ∷ t → is_space c ≡ false
trim_space_front s c t e = trim_left_fixed c t (ap trim_left (sym e) ∙ trim_left-trim_space s ∙ e)

trim_right_end : (s : Text) (d : ℕ) → is_space d ≡ false → trim_right (s ++ d ∷ []) ≡ s ++ d ∷ []
unfolding trim_right
trim_right_end [] d h = rw h refl
trim_right_end (c ∷ []) d h = rw h (if_and_false (is_space c))
  where
    if_and_false : (b : Bool) → (if b && false then [] else c ∷ d ∷ []) ≡ c ∷ d ∷ []
    if_and_false true = refl
    if_and_false false = refl
trim_right_end (c ∷ x ∷ s) d h = rw (trim_right_end (x ∷ s) d h) (if_and_false (is_space c))
  where
    if_and_false :
        (b : Bool) → (if b && false then [] else c ∷ x ∷ (s ++ d ∷ [])) ≡ c ∷ x ∷ (s ++ d ∷ [])
    if_and_false true = refl
    if_and_false false = refl

-- A text that neither begins nor ends with a space stays.
pub trim_space_fixed :
    (c d : ℕ) (t s : Text)
    → is_space c ≡ false
    → is_space d ≡ false
    → c ∷ t ≡ s ++ d ∷ []
    → trim_space (c ∷ t) ≡ c ∷ t
unfolding trim_space trim_left
trim_space_fixed c d t s hc hd e = rw hc (ap trim_right e ∙ trim_right_end s d hd ∙ sym e)

-- What is not blank is not empty.
pub is_nil_of_not_blank : (s : Text) → is_blank s ≡ false → is_nil s ≡ false
unfolding is_blank trim_space trim_left trim_right
is_nil_of_not_blank [] h = h
is_nil_of_not_blank (c ∷ s) h = refl

-- What is trimmed is blank only if it is empty.
pub is_blank-trim_space : (s : Text) → is_blank (trim_space s) ≡ is_nil (trim_space s)
unfolding is_blank
is_blank-trim_space s = ap is_nil (trim_space_idem s)

module _ {ℓ} (P : ℕ → Type ℓ) where
  All-trim_left : (s : Text) → All P s → All P (trim_left s)
  unfolding trim_left
  All-trim_left [] h = tt
  All-trim_left (c ∷ s) h = elim (Bool-cases (is_space c)) [
    | inl e ↦ rw e (All-trim_left s h.1)
    | inr e ↦ rw e h
  ]

  All-trim_right : (s : Text) → All P s → All P (trim_right s)
  unfolding trim_right
  All-trim_right [] h = tt
  All-trim_right (c ∷ s) h = elim (Bool-cases (is_space c && is_nil (trim_right s))) [
    | inl e ↦ rw e tt
    | inr e ↦ rw e (h.0, All-trim_right s h.1)
  ]

  -- Trimming adds no runes.
  pub All-trim_space : (s : Text) → All P s → All P (trim_space s)
  unfolding trim_space
  All-trim_space s h = All-trim_right (trim_left s) (All-trim_left s h)
