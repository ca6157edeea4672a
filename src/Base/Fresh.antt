-- ===== src/Base/Fresh.antt =====
-- The first of a row of different texts that is not in a list.
use Prim.Native.Nat.{ℕ, zero, suc, ◌+◌, ◌≤◌, ◌<◌}
use mathlib.Core.Path.{◌≡◌, refl, sym, ◌∙◌, subst}
use mathlib.Core.Logic.{◌≢◌, inl, inr}
use mathlib.Core.Bool.{Bool, true, false, ◌||◌}
use mathlib.Core.List.{List, [], ◌∷◌}
use native.Mathlib.Omega.{arith}
use nbterminal.Base.Tests.{if◌then◌else◌, if-elim, Bool-cases}
use nbterminal.Base.Lists.{length}
use nbterminal.Base.Strings.{Text, text_eq, text_eq_iff, text_eq_of_ne}

-- Whether a set of strings, a list here, has the text.
unfoldable pub contains : List Text → Text → Bool
contains [] x = false
contains (y ∷ ys) x = text_eq y x || contains ys x

-- The loop `for i := n; ; i++` that ends at the first candidate that is not in `seen`. It makes at
-- most `fuel` steps, and gives the candidate it stands at when they are used up.
unfoldable pub first_unseen : (ℕ → Text) → ℕ → ℕ → List Text → Text
unfolding contains
first_unseen candidate zero n seen = candidate n
first_unseen candidate (suc fuel) n seen =
    let rest = first_unseen candidate fuel (suc n) seen in
    if contains seen (candidate n) then rest else candidate n

without : Text → List Text → List Text
without x [] = []
without x (y ∷ ys) = let rest = without x ys in if text_eq y x then rest else y ∷ rest

length-without : (x : Text) (ys : List Text) → length (without x ys) ≤ length ys
unfolding without
length-without x [] = omega arith
length-without x (y ∷ ys) = ground (arith, length-without x ys)

length-without_seen :
    (x : Text) (ys : List Text) → contains ys x ≡ true → length (without x ys) < length ys
unfolding without contains
length-without_seen x [] h = cc
length-without_seen x (y ∷ ys) h = elim (Bool-cases (text_eq y x)) [
  | inl e ↦ rw e (let k = length-without x ys in omega arith)
  | inr e ↦ rw e (let k = length-without_seen x ys (rw (e, contains) at h) in omega arith)
]

contains-without : (x z : Text) (ys : List Text) → z ≢ x → contains (without x ys) z ≡ contains ys z
unfolding without contains
contains-without x z [] ne = refl
contains-without x z (y ∷ ys) ne = elim (Bool-cases (text_eq y x)) [
  | inl e ↦
      let p = (text_eq_iff y x).0 e in
      rw (e, text_eq_of_ne y z (λ q. ne (sym q ∙ p))) (contains-without x z ys ne)
  | inr e ↦ rw (e, contains-without x z ys ne) refl
]

module _ (candidate : ℕ → Text) (injective : (m n : ℕ) → candidate m ≡ candidate n → m ≡ n) where
  -- Among more candidates than the list is long, one is not in it.
  unseen :
      (fuel n : ℕ) (seen : List Text)
      → length seen < fuel
      → (k : ℕ) × (k < fuel) × (contains seen (candidate (n + k)) ≡ false)
  unseen zero n seen h = absurd (omega arith)
  unseen (suc fuel) n seen h = elim (Bool-cases (contains seen (candidate n))) [
    | inr e ↦ (0, omega arith, subst (λ m. contains seen (candidate m) ≡ false) (omega arith) e)
    | inl e ↦
        let shorter = length-without_seen (candidate n) seen e in
        let (k, l, f) = unseen fuel (suc n) (without (candidate n) seen) (omega arith) in
        (
          suc k,
          omega arith,
          subst (λ m. contains seen (candidate m) ≡ false) (omega arith)
              (sym (
                  contains-without (candidate n) (candidate (suc n + k)) seen
                    (λ p. let q = injective (suc n + k) n p in absurd (omega arith)))
                ∙ f),
        )
  ]

  first_unseen_found :
      (fuel n k : ℕ) (seen : List Text)
      → k < fuel
      → contains seen (candidate (n + k)) ≡ false
      → contains seen (first_unseen candidate fuel n seen) ≡ false
  unfolding first_unseen
  first_unseen_found zero n k seen h e = absurd (omega arith)
  first_unseen_found (suc fuel) n zero seen h e =
      let f = subst (λ m. contains seen (candidate m) ≡ false) {y = n} (omega arith) e in rw f f
  first_unseen_found (suc fuel) n (suc k) seen h e =
      elim (Bool-cases (contains seen (candidate n))) [
        | inr f ↦ rw f f
        | inl f ↦ rw f (
            first_unseen_found fuel (suc n) k seen (omega arith)
              (subst (λ m. contains seen (candidate m) ≡ false) (omega arith) e))
      ]

  -- With more fuel than the list is long, the loop ends at a text that is not in the list.
  pub contains-first_unseen :
      (fuel n : ℕ) (seen : List Text)
      → length seen < fuel
      → contains seen (first_unseen candidate fuel n seen) ≡ false
  contains-first_unseen fuel n seen h =
      let (k, l, e) = unseen fuel n seen h in first_unseen_found fuel n k seen l e

-- What is found is a candidate, and the first one if that is free.
pub first_unseen-candidate :
    (candidate : ℕ → Text) (fuel n : ℕ) (seen : List Text)
    → (k : ℕ) × (first_unseen candidate fuel n seen ≡ candidate k)
unfolding first_unseen
first_unseen-candidate candidate zero n seen = (n, refl)
first_unseen-candidate candidate (suc fuel) n seen =
    if-elim (λ t. (k : ℕ) × (t ≡ candidate k)) (contains seen (candidate n))
      (first_unseen candidate fuel (suc n) seen) (candidate n)
      (λ e. first_unseen-candidate candidate fuel (suc n) seen) (λ e. (n, refl))

pub first_unseen_free :
    (candidate : ℕ → Text) (fuel n : ℕ) (seen : List Text)
    → contains seen (candidate n) ≡ false
    → first_unseen candidate fuel n seen ≡ candidate n
unfolding first_unseen
first_unseen_free candidate zero n seen h = refl
first_unseen_free candidate (suc fuel) n seen h = rw h refl
