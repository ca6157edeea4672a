-- ===== src/Base/Laws.antt =====
-- Laws of the lists: positions, insertion and removal.
use Prim.Native.Nat.{ℕ, zero, suc, ◌+◌, ◌-◌, ◌≤◌, ◌<◌}
use mathlib.Core.Path.{◌≡◌, refl, sym, ap, ◌∙◌, subst}
use mathlib.Core.Logic.{◌⊎◌, inl, inr}
use mathlib.Core.Bool.{Bool, true}
use mathlib.Core.Option.{some}
use mathlib.Core.List.{List, [], ◌∷◌, ◌++◌, Perm}
use mathlib.Core.List.Perm
use native.Mathlib.Omega.{arith}
use nbterminal.Base.Tests.{Bool-cases, ltb, ltb→lt, not_ltb→le, Option-cases, some_inj}
use nbterminal.Base.Lists.{
  length, get_elem?, set, take, drop, reverse_onto, reverse, erase_idx, insert_idx, find_idx, last?,
  drop_last, All,
}

module _ {ℓ} {A : Type ℓ} where
  -- `x` stands somewhere in the list.
  abbrev pub At : List A → A → Type ℓ
  At xs x = (i : ℕ) × (get_elem? xs i ≡ some x)

  pub append_assoc : (xs ys zs : List A) → (xs ++ ys) ++ zs ≡ xs ++ (ys ++ zs)
  append_assoc [] ys zs = refl
  append_assoc (x ∷ xs) ys zs = ap (x ∷◌) (append_assoc xs ys zs)

  pub append_nil : (xs : List A) → xs ++ [] ≡ xs
  append_nil [] = refl
  append_nil (x ∷ xs) = ap (x ∷◌) (append_nil xs)

  pub length-append : (xs ys : List A) → length (xs ++ ys) ≡ length xs + length ys
  length-append [] ys = omega arith
  length-append (x ∷ xs) ys = omega (arith, length-append xs ys)

  pub drop_nil : (k : ℕ) → drop {A = A} k [] ≡ []
  drop_nil zero = refl
  drop_nil (suc k) = refl

  pub drop_zero : (k : ℕ) (xs : List A) → k ≡ 0 → drop k xs ≡ xs
  drop_zero zero xs h = refl
  drop_zero (suc k) xs h = absurd (omega arith)

  pub take-append_at : (n : ℕ) (xs ys : List A) → n ≡ length xs → take n (xs ++ ys) ≡ xs
  take-append_at zero [] ys h = refl
  take-append_at (suc n) [] ys h = absurd (omega arith)
  take-append_at zero (x ∷ xs) ys h = absurd (omega arith)
  take-append_at (suc n) (x ∷ xs) ys h = ap (x ∷◌) (take-append_at n xs ys (omega arith))

  pub take-append_le : (n : ℕ) (xs ys : List A) → n ≤ length xs → take n (xs ++ ys) ≡ take n xs
  take-append_le zero xs ys h = refl
  take-append_le (suc n) [] ys h = absurd (omega arith)
  take-append_le (suc n) (x ∷ xs) ys h = ap (x ∷◌) (take-append_le n xs ys (omega arith))

  pub take_all : (n : ℕ) (xs : List A) → length xs ≤ n → take n xs ≡ xs
  take_all zero [] h = refl
  take_all (suc n) [] h = refl
  take_all zero (x ∷ xs) h = absurd (omega arith)
  take_all (suc n) (x ∷ xs) h = ap (x ∷◌) (take_all n xs (omega arith))

  pub length-take_le : (n : ℕ) (xs : List A) → length (take n xs) ≤ length xs
  length-take_le zero xs = omega arith
  length-take_le (suc n) [] = omega arith
  length-take_le (suc n) (x ∷ xs) = omega (arith, length-take_le n xs)

  pub drop-append_le :
      (n : ℕ) (xs ys : List A) → n ≤ length xs → drop n (xs ++ ys) ≡ drop n xs ++ ys
  drop-append_le zero xs ys h = refl
  drop-append_le (suc n) [] ys h = absurd (omega arith)
  drop-append_le (suc n) (x ∷ xs) ys h = drop-append_le n xs ys (omega arith)

  reverse_onto-append :
      (xs ys : List A) (x : A) → reverse_onto xs (ys ++ x ∷ []) ≡ reverse_onto xs ys ++ x ∷ []
  reverse_onto-append [] ys x = refl
  reverse_onto-append (y ∷ xs) ys x = reverse_onto-append xs (y ∷ ys) x

  pub reverse-cons : (x : A) (xs : List A) → reverse (x ∷ xs) ≡ reverse xs ++ x ∷ []
  reverse-cons x xs = reverse_onto-append xs [] x

  pub reverse-append_end : (xs : List A) (x : A) → reverse (xs ++ x ∷ []) ≡ x ∷ reverse xs
  reverse-append_end xs x = go xs []
    where
      go : (zs ys : List A) → reverse_onto (zs ++ x ∷ []) ys ≡ x ∷ reverse_onto zs ys
      go [] ys = refl
      go (z ∷ zs) ys = go zs (z ∷ ys)

  pub reverse-reverse : (xs : List A) → reverse (reverse xs) ≡ xs
  reverse-reverse [] = refl
  reverse-reverse (x ∷ xs) =
      ap reverse (reverse-cons x xs)
      ∙ reverse-append_end (reverse xs) x
      ∙ ap (x ∷◌) (reverse-reverse xs)

  pub length-reverse : (xs : List A) → length (reverse xs) ≡ length xs
  length-reverse [] = refl
  length-reverse (x ∷ xs) =
      ap length (reverse-cons x xs)
      ∙ omega (arith, length-append (reverse xs) (x ∷ []), length-reverse xs)

  -- The first of the reversed list, turned round, are the last.
  pub reverse-take-reverse :
      (n : ℕ) (xs : List A) → reverse (take n (reverse xs)) ≡ drop (length xs - n) xs
  reverse-take-reverse zero [] = refl
  reverse-take-reverse (suc n) [] = sym (drop_nil (0 - suc n))
  reverse-take-reverse n (x ∷ xs) = elim (Bool-cases (ltb (length xs) n)) [
    | inl e ↦
        let l = ltb→lt (length xs) n e in
        ap reverse (take_all n (reverse (x ∷ xs)) (omega (arith, length-reverse (x ∷ xs))))
        ∙ reverse-reverse (x ∷ xs)
        ∙ sym (drop_zero (suc (length xs) - n) (x ∷ xs) (omega arith))
    | inr e ↦
        let l = not_ltb→le (length xs) n e in
        ap (λ ys. reverse (take n ys)) (reverse-cons x xs)
        ∙ ap reverse (take-append_le n (reverse xs) (x ∷ []) (omega (arith, length-reverse xs)))
        ∙ reverse-take-reverse n xs
        ∙ ap (λ k. drop k (x ∷ xs)) {x = suc (length xs - n)} (omega arith)
  ]

  pub length-set : (xs : List A) (i : ℕ) (v : A) → length (set xs i v) ≡ length xs
  length-set [] i v = refl
  length-set (x ∷ xs) zero v = refl
  length-set (x ∷ xs) (suc i) v = ap suc (length-set xs i v)

  pub length-drop : (n : ℕ) (xs : List A) → length (drop n xs) ≡ length xs - n
  length-drop zero xs = omega arith
  length-drop (suc n) [] = omega arith
  length-drop (suc n) (x ∷ xs) = omega (arith, length-drop n xs)

  pub length-drop_last : (xs : List A) → length (drop_last xs) ≤ length xs
  length-drop_last [] = omega arith
  length-drop_last (x ∷ []) = omega arith
  length-drop_last (x ∷ y ∷ xs) = omega (arith, length-drop_last (y ∷ xs))

  pub length-insert_idx :
      (xs : List A) (i : ℕ) (v : A) → length (insert_idx xs i v) ≡ suc (length xs)
  length-insert_idx xs zero v = refl
  length-insert_idx [] (suc i) v = refl
  length-insert_idx (x ∷ xs) (suc i) v = ap suc (length-insert_idx xs i v)

  pub length-erase_idx :
      (xs : List A) (i : ℕ) → i < length xs → suc (length (erase_idx xs i)) ≡ length xs
  length-erase_idx [] i h = elim h [ ]
  length-erase_idx (x ∷ xs) zero h = refl
  length-erase_idx (x ∷ xs) (suc i) h = ap suc (length-erase_idx xs i (omega arith))

  pub lt-length_of_get_elem? :
      (xs : List A) (i : ℕ) {x : A} → get_elem? xs i ≡ some x → i < length xs
  lt-length_of_get_elem? [] i h = cc
  lt-length_of_get_elem? (y ∷ xs) zero h = omega arith
  lt-length_of_get_elem? (y ∷ xs) (suc i) h = omega (arith, lt-length_of_get_elem? xs i h)

  pub get_elem?_of_lt : (xs : List A) (i : ℕ) → i < length xs → (x : A) × (get_elem? xs i ≡ some x)
  get_elem?_of_lt [] i h = elim h [ ]
  get_elem?_of_lt (x ∷ xs) zero h = (x, refl)
  get_elem?_of_lt (x ∷ xs) (suc i) h = get_elem?_of_lt xs i (omega arith)

  pub get_elem?-set_self :
      (xs : List A) (i : ℕ) (v : A) → i < length xs → get_elem? (set xs i v) i ≡ some v
  get_elem?-set_self [] i v h = elim h [ ]
  get_elem?-set_self (x ∷ xs) zero v h = refl
  get_elem?-set_self (x ∷ xs) (suc i) v h = get_elem?-set_self xs i v (omega arith)

  pub get_elem?-append_end : (xs : List A) (x : A) → get_elem? (xs ++ x ∷ []) (length xs) ≡ some x
  get_elem?-append_end [] x = refl
  get_elem?-append_end (y ∷ xs) x = get_elem?-append_end xs x

  pub get_elem?-append_left :
      (xs ys : List A) (i : ℕ) {x : A} → get_elem? xs i ≡ some x → get_elem? (xs ++ ys) i ≡ some x
  get_elem?-append_left [] ys i h = cc
  get_elem?-append_left (y ∷ xs) ys zero h = h
  get_elem?-append_left (y ∷ xs) ys (suc i) h = get_elem?-append_left xs ys i h

  pub last?-append_end : (xs : List A) (x : A) → last? (xs ++ x ∷ []) ≡ some x
  last?-append_end [] x = refl
  last?-append_end (y ∷ []) x = refl
  last?-append_end (y ∷ z ∷ xs) x = last?-append_end (z ∷ xs) x

  pub drop_last-append_end : (xs : List A) (x : A) → drop_last (xs ++ x ∷ []) ≡ xs
  drop_last-append_end [] x = refl
  drop_last-append_end (y ∷ []) x = refl
  drop_last-append_end (y ∷ z ∷ xs) x = ap (y ∷◌) (drop_last-append_end (z ∷ xs) x)

  pub drop-append_end :
      (n : ℕ) (xs : List A) (x : A) → n ≤ length xs → drop n (xs ++ x ∷ []) ≡ drop n xs ++ x ∷ []
  drop-append_end zero xs x h = refl
  drop-append_end (suc n) [] x h = absurd (omega arith)
  drop-append_end (suc n) (y ∷ xs) x h = drop-append_end n xs x (omega arith)

  pub At-insert_idx_self : (xs : List A) (i : ℕ) (x : A) → At (insert_idx xs i x) x
  At-insert_idx_self xs zero x = (0, refl)
  At-insert_idx_self [] (suc i) x = (0, refl)
  At-insert_idx_self (y ∷ xs) (suc i) x = let (j, e) = At-insert_idx_self xs i x in (suc j, e)

  pub At-insert_idx :
      (xs : List A) (i : ℕ) (x : A) (j : ℕ) {y : A}
      → get_elem? xs j ≡ some y
      → At (insert_idx xs i x) y
  At-insert_idx xs zero x j e = (suc j, e)
  At-insert_idx [] (suc i) x j e = cc
  At-insert_idx (z ∷ xs) (suc i) x zero e = (0, e)
  At-insert_idx (z ∷ xs) (suc i) x (suc j) e = let (k, e') = At-insert_idx xs i x j e in (suc k, e')

  pub get_elem?-insert_idx :
      (xs : List A) (i : ℕ) (x : A) → i ≤ length xs → get_elem? (insert_idx xs i x) i ≡ some x
  get_elem?-insert_idx xs zero x h = refl
  get_elem?-insert_idx [] (suc i) x h = absurd (omega arith)
  get_elem?-insert_idx (y ∷ xs) (suc i) x h = get_elem?-insert_idx xs i x (omega arith)

  pub get_elem?-erase_idx_before :
      (xs : List A) (i a : ℕ) → i ≤ a → get_elem? (erase_idx xs i) a ≡ get_elem? xs (suc a)
  get_elem?-erase_idx_before [] i a h = refl
  get_elem?-erase_idx_before (x ∷ xs) zero a h = refl
  get_elem?-erase_idx_before (x ∷ xs) (suc i) zero h = absurd (omega arith)
  get_elem?-erase_idx_before (x ∷ xs) (suc i) (suc a) h =
      get_elem?-erase_idx_before xs i a (omega arith)

  pub get_elem?-erase_idx_after :
      (xs : List A) (i a : ℕ) → a < i → get_elem? (erase_idx xs i) a ≡ get_elem? xs a
  get_elem?-erase_idx_after [] i a h = refl
  get_elem?-erase_idx_after (x ∷ xs) zero a h = elim h [ ]
  get_elem?-erase_idx_after (x ∷ xs) (suc i) zero h = refl
  get_elem?-erase_idx_after (x ∷ xs) (suc i) (suc a) h =
      get_elem?-erase_idx_after xs i a (omega arith)

  -- Another element than the one that is taken out is still there.
  pub At-erase_idx :
      (xs : List A) (i j : ℕ) {x y : A}
      → get_elem? xs i ≡ some x
      → get_elem? xs j ≡ some y
      → (x ≡ y) ⊎ At (erase_idx xs i) y
  At-erase_idx [] i j hx hy = cc
  At-erase_idx (z ∷ xs) zero zero hx hy = inl (cc)
  At-erase_idx (z ∷ xs) zero (suc j) hx hy = inr (j, hy)
  At-erase_idx (z ∷ xs) (suc i) zero hx hy = inr (0, hy)
  At-erase_idx (z ∷ xs) (suc i) (suc j) hx hy = elim (At-erase_idx xs i j hx hy) [
    | inl e ↦ inl e
    | inr (k, e) ↦ inr (suc k, e)
  ]

  pub insert_idx-perm : (xs : List A) (i : ℕ) (x : A) → Perm (insert_idx xs i x) (x ∷ xs)
  insert_idx-perm xs zero x = Perm.refl (x ∷ xs)
  insert_idx-perm [] (suc i) x = Perm.refl (x ∷ [])
  insert_idx-perm (y ∷ xs) (suc i) x =
      Perm.trans (Perm.cons y (insert_idx-perm xs i x)) (Perm.swap x y xs)

  pub erase_idx-perm :
      (xs : List A) (i : ℕ) {x : A} → get_elem? xs i ≡ some x → Perm (x ∷ erase_idx xs i) xs
  erase_idx-perm [] i h = cc
  erase_idx-perm (y ∷ xs) zero {x} h =
      subst (λ z. Perm (z ∷ xs) (y ∷ xs)) (some_inj h) (Perm.refl (y ∷ xs))
  erase_idx-perm (y ∷ xs) (suc i) {x} h =
      Perm.trans (Perm.swap y x (erase_idx xs i)) (Perm.cons y (erase_idx-perm xs i h))

module _ {ℓ κ} {A : Type ℓ} (P : A → Type κ) where
  pub All-append_end : (xs : List A) (x : A) → All P xs → P x → All P (xs ++ x ∷ [])
  All-append_end [] x h p = (p, tt)
  All-append_end (y ∷ xs) x h p = (h.0, All-append_end xs x h.1 p)

  pub All-insert_idx : (xs : List A) (i : ℕ) (x : A) → P x → All P xs → All P (insert_idx xs i x)
  All-insert_idx xs zero x p h = (p, h)
  All-insert_idx [] (suc i) x p h = (p, tt)
  All-insert_idx (y ∷ xs) (suc i) x p h = (h.0, All-insert_idx xs i x p h.1)

  pub All-erase_idx : (xs : List A) (i : ℕ) → All P xs → All P (erase_idx xs i)
  All-erase_idx [] i h = tt
  All-erase_idx (y ∷ xs) zero h = h.1
  All-erase_idx (y ∷ xs) (suc i) h = (h.0, All-erase_idx xs i h.1)

  pub All-get_elem? : (xs : List A) (i : ℕ) {x : A} → All P xs → get_elem? xs i ≡ some x → P x
  All-get_elem? [] i h e = cc
  All-get_elem? (y ∷ xs) zero h e = subst P (some_inj e) h.0
  All-get_elem? (y ∷ xs) (suc i) h e = All-get_elem? xs i h.1 e

module _ {ℓ κ μ} {A : Type ℓ} (P : A → Type κ) (Q : A → Type μ) where
  pub All-map : (xs : List A) → ((x : A) → P x → Q x) → All P xs → All Q xs
  All-map [] f h = tt
  All-map (x ∷ xs) f h = (f x h.0, All-map xs f h.1)

module _ {ℓ} {A : Type ℓ} (p : A → Bool) where
  abbrev Fits : List A → ℕ → Type ℓ
  Fits xs i = (x : A) × (get_elem? xs i ≡ some x) × (p x ≡ true)

  -- The position found holds an element that fits.
  pub find_idx-Fits : (xs : List A) (i : ℕ) → find_idx p xs ≡ some i → Fits xs i
  find_idx-Fits [] i h = cc
  find_idx-Fits (x ∷ xs) i h = elim (Bool-cases (p x)) [
    | inl e ↦ subst (Fits (x ∷ xs)) (some_inj (rw (e, find_idx) at h)) (x, refl, e)
    | inr e ↦ elim (Option-cases (find_idx p xs)) [
      | inl n ↦ ground (arith, e, n, h)
      | inr (j, s) ↦
          subst (Fits (x ∷ xs)) (some_inj (rw (e, s, find_idx) at h)) (find_idx-Fits xs j s)
    ]
  ]

  -- Where an element fits, a position is found.
  pub find_idx-found :
      (xs : List A) (j : ℕ) {x : A}
      → get_elem? xs j ≡ some x
      → p x ≡ true
      → (i : ℕ) × (find_idx p xs ≡ some i)
  find_idx-found [] j e h = cc
  find_idx-found (y ∷ xs) zero e h = (0, rw (some_inj e, h, find_idx))
  find_idx-found (y ∷ xs) (suc j) e h = elim (Bool-cases (p y)) [
    | inl f ↦ (0, rw (f, find_idx))
    | inr f ↦ let (i, r) = find_idx-found xs j e h in (suc i, rw (f, r, find_idx))
  ]
