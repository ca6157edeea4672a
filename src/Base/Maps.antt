-- ===== src/Base/Maps.antt =====
-- Go's `map[string]V` as an association list.
use mathlib.Core.Path.{◌≡◌, refl, sym, ◌∙◌}
use mathlib.Core.Logic.{◌≢◌, inl, inr}
use mathlib.Core.Option.{Option, none, some}
use mathlib.Core.List.{List, [], ◌∷◌}
use nbterminal.Base.Tests.{if◌then◌else◌, Bool-cases}
use nbterminal.Base.Strings.{Text, text_eq, text_eq_iff, text_eq_refl, text_eq_of_ne}

module _ {ℓ} {V : Type ℓ} where
  -- `m[k]`, with its second result.
  unfoldable pub lookup : Text → List (Text × V) → Option V
  lookup k [] = none
  lookup k ((key, v) ∷ m) = let rest = lookup k m in if text_eq key k then some v else rest

  -- `delete(m, k)`.
  unfoldable pub delete : Text → List (Text × V) → List (Text × V)
  delete k [] = []
  delete k ((key, v) ∷ m) = let rest = delete k m in if text_eq key k then rest else (key, v) ∷ rest

  -- `m[k] = v`.
  unfoldable pub insert : Text → V → List (Text × V) → List (Text × V)
  unfolding delete
  insert k v m = (k, v) ∷ delete k m

  pub lookup-nil : (k : Text) → lookup k [] ≡ none
  unfolding lookup
  lookup-nil k = refl

  pub lookup-delete : (k : Text) (m : List (Text × V)) → lookup k (delete k m) ≡ none
  unfolding lookup delete
  lookup-delete k [] = refl
  lookup-delete k ((key, v) ∷ m) = elim (Bool-cases (text_eq key k)) [
    | inl e ↦ rw e (lookup-delete k m)
    | inr e ↦ rw e (rw e (lookup-delete k m))
  ]

  pub lookup-delete_other :
      (k j : Text) (m : List (Text × V)) → j ≢ k → lookup j (delete k m) ≡ lookup j m
  unfolding lookup delete
  lookup-delete_other k j [] ne = refl
  lookup-delete_other k j ((key, v) ∷ m) ne = elim (Bool-cases (text_eq key k)) [
    | inl e ↦
        let p = (text_eq_iff key k).0 e in
        rw (e, text_eq_of_ne key j (λ q. ne (sym q ∙ p))) (lookup-delete_other k j m ne)
    | inr e ↦ rw (e, lookup-delete_other k j m ne) refl
  ]

  pub lookup-insert : (k : Text) (v : V) (m : List (Text × V)) → lookup k (insert k v m) ≡ some v
  unfolding lookup insert
  lookup-insert k v m = rw (text_eq_refl k) refl

  pub lookup-insert_other :
      (k j : Text) (v : V) (m : List (Text × V)) → j ≢ k → lookup j (insert k v m) ≡ lookup j m
  unfolding lookup insert
  lookup-insert_other k j v m ne =
      rw (text_eq_of_ne k j (λ q. ne (sym q))) (lookup-delete_other k j m ne)

  delete_idem : (k : Text) (m : List (Text × V)) → delete k (delete k m) ≡ delete k m
  unfolding delete
  delete_idem k [] = refl
  delete_idem k ((key, v) ∷ m) = elim (Bool-cases (text_eq key k)) [
    | inl e ↦ rw e (delete_idem k m)
    | inr e ↦ rw e (rw (e, delete_idem k m) refl)
  ]

  -- What is written once more is there once.
  pub insert_idem :
      (k : Text) (v : V) (m : List (Text × V)) → insert k v (insert k v m) ≡ insert k v m
  unfolding insert delete
  insert_idem k v m = rw (text_eq_refl k, delete_idem k m) refl
