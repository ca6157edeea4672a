-- ===== src/Groups/Rename.antt =====
-- What `renameConnectionGroup` (guis/connection_manager.go) does to the rows.
use nbterminal.Base.{
  ℕ, ◌<◌, true, false, List, [], ◌∷◌, ◌++◌, is_nil, ◌≡◌, refl, sym, ap, ◌∙◌, subst, ◌⊎◌, inl, inr,
  Bool-cases, Text, text_eq,
}
use mathlib.Core.List.{append-nil}
use nbterminal.Profile.{ConnectionProfile}
use nbterminal.Groups.Paths.{
  slash, join, segments, normalize_connection_group, has_prefix, trim_prefix, is_within,
  group_contains_path,
}
use nbterminal.Groups.Edit.{checked, change_rows, renamed, rename_connection_group}
use nbterminal.Groups.Contains.{join-append, contains-IsBelow, nonempty_of_join, trim_prefix-append}
use nbterminal.Groups.Rows.{
  RowsAgree, count_rows, change_rows-RowsAgree, change_rows-count, checked-inr, count_rows-congr,
}

-- A row outside the old path is as it was; one below it keeps all but its group, whose segments go
-- on below the new path as they did below the old one.
abbrev pub IsRenamed : Text → Text → ConnectionProfile → ConnectionProfile → Type 0
IsRenamed old new row row' =
    ((group_contains_path old row.group ≡ false) × (row' ≡ row))
    ⊎ ((rest : List Text) × (segments row.group ≡ segments old ++ rest)
        × (row' ≡ record row { group = join (segments new ++ rest) }))

pub trim_prefix_self : (p : Text) → trim_prefix p p ≡ []
trim_prefix_self p = subst (λ t. trim_prefix t p ≡ []) (append-nil p) (trim_prefix-append p [])

renamed_group :
    (ps qs rest : List Text)
    → is_nil ps ≡ false
    → is_nil qs ≡ false
    → join qs ++ trim_prefix (join (ps ++ rest)) (join ps) ≡ join (qs ++ rest)
renamed_group [] qs rest h k = cc
renamed_group (p ∷ ps) [] rest h k = cc
renamed_group (p ∷ ps) (q ∷ qs) [] h k =
    rw (append-nil (p ∷ ps), append-nil (q ∷ qs), trim_prefix_self (join (p ∷ ps)))
      (append-nil (join (q ∷ qs)))
renamed_group (p ∷ ps) (q ∷ qs) (r ∷ rest) h k =
    rw
      (
        join-append p ps r rest,
        join-append q qs r rest,
        trim_prefix-append (join (p ∷ ps)) (slash ∷ join (r ∷ rest)),
      )
      refl

pub contains_of_within :
    (old group : Text)
    → is_nil (normalize_connection_group old) ≡ false
    → group_contains_path old group
      ≡ is_within (normalize_connection_group old) (normalize_connection_group group)
unfolding group_contains_path
contains_of_within old group h = rw h refl

renamed-IsRenamed :
    (old new : Text) (row : ConnectionProfile)
    → is_nil (normalize_connection_group old) ≡ false
    → is_nil (normalize_connection_group new) ≡ false
    → is_within (normalize_connection_group old) (normalize_connection_group row.group) ≡ true
    → IsRenamed old new row
        (renamed (normalize_connection_group old) (normalize_connection_group new) row)
unfolding normalize_connection_group
renamed-IsRenamed old new row h k w =
    let (n, (rest, e)) = contains-IsBelow old row.group (contains_of_within old row.group h ∙ w) in
    inr (
      rest,
      e,
      ap (λ g. record row { group = g })
          (ap (λ g. join (segments new) ++ trim_prefix (join g) (join (segments old))) e
            ∙ renamed_group (segments old) (segments new) rest n
                (nonempty_of_join (segments new) k)),
    )

module _ (rows : List ConnectionProfile) (old new : Text) where
  abbrev old_path : Text
  old_path = normalize_connection_group old

  abbrev new_path : Text
  new_path = normalize_connection_group new

  -- The loop of the function.
  abbrev loop : List ConnectionProfile × ℕ
  loop =
      change_rows (λ row. is_within old_path (normalize_connection_group row.group))
        (renamed old_path new_path) rows

  -- The rows that the loop gives, and how many it changes.
  loop_lem :
      is_nil old_path ≡ false
      → is_nil new_path ≡ false
      → RowsAgree (IsRenamed old new) rows loop.0
        × (loop.1 ≡ count_rows (λ row. group_contains_path old row.group) rows)
  loop_lem h k = (
    change_rows-RowsAgree (λ row. is_within old_path (normalize_connection_group row.group))
        (renamed old_path new_path) (IsRenamed old new)
        (λ row w. renamed-IsRenamed old new row h k w)
        (λ row w. inl (contains_of_within old row.group h ∙ w, refl)) rows,
    change_rows-count (λ row. is_within old_path (normalize_connection_group row.group))
          (renamed old_path new_path) rows
        ∙ count_rows-congr (λ row. is_within old_path (normalize_connection_group row.group))
            (λ row. group_contains_path old row.group)
            (λ row. sym (contains_of_within old row.group h)) rows,
  )

  -- Where it does not fail at a test, the function makes the loop.
  rename_loop :
      {r : List ConnectionProfile × ℕ}
      → rename_connection_group rows old new ≡ inr r
      → (is_nil old_path ≡ false) × (is_nil new_path ≡ false) × (checked loop ≡ inr r)
  unfolding rename_connection_group
  rename_loop {r} h = elim (Bool-cases (is_nil old_path)) [
    | inl a ↦ let k = rw a at h in cc
    | inr a ↦ elim (Bool-cases (is_nil new_path)) [
      | inl b ↦ let k = rw (a, b) at h in cc
      | inr b ↦ elim (Bool-cases (text_eq new_path old_path)) [
        | inl c ↦ let k = rw (a, b, c) at h in cc
        | inr c ↦ elim (Bool-cases (has_prefix new_path (old_path ++ slash ∷ []))) [
          | inl d ↦ let k = rw (a, b, c, d) at h in cc
          | inr d ↦ (a, b, rw (a, b, c, d) at h)
        ]
      ]
    ]
  ]

  -- A rename that succeeds changes exactly the rows of the old group and below it, counts them, and
  -- there is one.
  pub rename_connection_group_lem :
      {next : List ConnectionProfile} {n : ℕ}
      → rename_connection_group rows old new ≡ inr (next, n)
      → RowsAgree (IsRenamed old new) rows next
        × (n ≡ count_rows (λ row. group_contains_path old row.group) rows)
        × (0 < n)
  rename_connection_group_lem {next} {n} h =
      let (a, b, c) = rename_loop h in
      let (e, p) = checked-inr loop (next, n) c in
      let (agree, count) = loop_lem a b in
      (
        subst (λ r. RowsAgree (IsRenamed old new) rows r.0) e agree,
        sym (ap (λ r. r.1) e) ∙ count,
        subst (λ r. 0 < r.1) e p,
      )
