-- ===== src/Groups/Rows.antt =====
-- The loops over the rows of `renameConnectionGroup` and `removeConnectionGroup`
-- (guis/connection_manager.go, guis/group_remove.go).
use nbterminal.Base.{
  ℕ, zero, suc, ◌<◌, Bool, true, false, List, [], ◌∷◌, if◌then◌else◌, ◌==◌, ◌≡◌, refl, ap, ◌∙◌, inl,
  inr, Bool-cases, get_elem?, arith, some, some_inj,
}
use nbterminal.Profile.{ConnectionProfile}
use nbterminal.Groups.Edit.{change_rows, checked}

-- Two lists of rows, related one by one.
abbrev pub RowsAgree :
    (ConnectionProfile → ConnectionProfile → Type 0)
    → List ConnectionProfile
    → List ConnectionProfile
    → Type 0
RowsAgree R [] [] = Unit
RowsAgree R (x ∷ xs) (y ∷ ys) = R x y × RowsAgree R xs ys
RowsAgree R _ _ = ⊥

abbrev pub count_rows : (ConnectionProfile → Bool) → List ConnectionProfile → ℕ
count_rows test [] = 0
count_rows test (row ∷ rows) = if test row then suc (count_rows test rows) else count_rows test rows

module _ (test : ConnectionProfile → Bool) (f : ConnectionProfile → ConnectionProfile) where
  pub change_rows-RowsAgree :
      (R : ConnectionProfile → ConnectionProfile → Type 0)
      → ((row : ConnectionProfile) → test row ≡ true → R row (f row))
      → ((row : ConnectionProfile) → test row ≡ false → R row row)
      → (rows : List ConnectionProfile) → RowsAgree R rows (change_rows test f rows).0
  unfolding change_rows
  change_rows-RowsAgree R f_lem same_lem [] = tt
  change_rows-RowsAgree R f_lem same_lem (row ∷ rows) = elim (Bool-cases (test row)) [
    | inl e ↦ rw e (f_lem row e, change_rows-RowsAgree R f_lem same_lem rows)
    | inr e ↦ rw e (same_lem row e, change_rows-RowsAgree R f_lem same_lem rows)
  ]

  pub change_rows-count :
      (rows : List ConnectionProfile) → (change_rows test f rows).1 ≡ count_rows test rows
  unfolding change_rows
  change_rows-count [] = refl
  change_rows-count (row ∷ rows) = elim (Bool-cases (test row)) [
    | inl e ↦ rw e (ap suc (change_rows-count rows))
    | inr e ↦ rw e (change_rows-count rows)
  ]

pub count_rows_pos :
    (test : ConnectionProfile → Bool) (rows : List ConnectionProfile) (i : ℕ)
    {row : ConnectionProfile}
    → get_elem? rows i ≡ some row
    → test row ≡ true
    → 0 < count_rows test rows
count_rows_pos test [] i e h = cc
count_rows_pos test (x ∷ rows) zero e h = rw (ap test (some_inj e) ∙ h) (omega arith)
count_rows_pos test (x ∷ rows) (suc i) e h = elim (Bool-cases (test x)) [
  | inl f ↦ rw f (omega arith)
  | inr f ↦ rw f (count_rows_pos test rows i e h)
]

pub count_rows-congr :
    (p q : ConnectionProfile → Bool)
    → ((row : ConnectionProfile) → p row ≡ q row)
    → (rows : List ConnectionProfile) → count_rows p rows ≡ count_rows q rows
count_rows-congr p q e [] = refl
count_rows-congr p q e (row ∷ rows) = rw (e row, count_rows-congr p q e rows) refl

suc_eq_zero : (k : ℕ) → (suc k == 0) ≡ false
suc_eq_zero k = ground arith

pub checked-inr : (r s : List ConnectionProfile × ℕ) → checked r ≡ inr s → (r ≡ s) × (0 < r.1)
checked-inr (rows, zero) s h = cc
checked-inr (rows, suc k) s h = (let e = suc_eq_zero k in let i = rw e at h in cc, omega arith)

pub checked-pos : (r : List ConnectionProfile × ℕ) → 0 < r.1 → checked r ≡ inr r
checked-pos (rows, zero) h = absurd (omega arith)
checked-pos (rows, suc k) h = ground arith
