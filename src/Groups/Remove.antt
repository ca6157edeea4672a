-- ===== src/Groups/Remove.antt =====
-- What `removeConnectionGroup` (guis/group_remove.go) does to the rows.
use nbterminal.Base.{
  ℕ, zero, suc, ◌<◌, true, false, ◌&&◌, some, none, List, [], ◌∷◌, ◌++◌, if◌then◌else◌, is_nil,
  get_elem?, drop_last, ◌≡◌, refl, sym, ap, ◌∙◌, subst, ◌⊎◌, inl, inr, Bool-cases, Text, All, ◌==◌,
  ==_iff,
}
use mathlib.Core.Bool.{and-eq-true_iff}
use mathlib.Core.List.{append-nil}
use nbterminal.Profile.{ConnectionProfile}
use nbterminal.Groups.Paths.{
  slash, join, segments, normalize_connection_group, cut_last_slash, trim_prefix,
  group_contains_path,
}
use nbterminal.Groups.Edit.{
  change_rows, parent_of, destination, moved_up, trim_left_slashes, trim_right_slashes,
  trim_slashes, remove_connection_group,
}
use nbterminal.Groups.Segments.{
  IsSegment, IsNotSlash, segments-append, segments-AreSegments, normalize-normalize, segments-join,
  nil_segments,
}
use nbterminal.Groups.Contains.{join-append, contains-IsBelow, trim_prefix-append}
use nbterminal.Groups.Rename.{trim_prefix_self}
use nbterminal.Groups.Rows.{
  RowsAgree, count_rows, change_rows-RowsAgree, change_rows-count, checked-inr, checked-pos,
  count_rows_pos, count_rows-congr,
}

segments-slash : (s : Text) → segments (slash ∷ s) ≡ segments s
segments-slash s = segments-append [] s ∙ ap (λ l. l ++ segments s) nil_segments

segments-trim_left : (s : Text) → segments (trim_left_slashes s) ≡ segments s
unfolding trim_left_slashes
segments-trim_left [] = refl
segments-trim_left (c ∷ s) = elim (Bool-cases (c == slash)) [
  | inl e ↦ rw e (
      segments-trim_left s
      ∙ (sym (segments-slash s) ∙ ap (λ d. segments (d ∷ s)) (sym ((==_iff c slash).0 e))))
  | inr e ↦ rw e refl
]

abbrev slashes : ℕ → Text
slashes zero = []
slashes (suc k) = slash ∷ slashes k

segments-slashes : (s : Text) (k : ℕ) → segments (s ++ slashes k) ≡ segments s
segments-slashes s zero = ap segments (append-nil s)
segments-slashes s (suc k) =
    segments-append s (slashes k)
    ∙ (ap (segments s ++◌) (segments-slashes [] k ∙ nil_segments) ∙ append-nil (segments s))

nil_of_is_nil : (s : Text) → is_nil s ≡ true → s ≡ []
nil_of_is_nil [] h = refl
nil_of_is_nil (c ∷ s) h = cc

trim_right_cut : (s : Text) → (k : ℕ) × (s ≡ trim_right_slashes s ++ slashes k)
unfolding trim_right_slashes
trim_right_cut [] = (0, refl)
trim_right_cut (c ∷ s) =
    let (k, e) = trim_right_cut s in
    elim (Bool-cases (c == slash && is_nil (trim_right_slashes s))) [
      | inl f ↦
          let (g, h) = (and-eq-true_iff (c == slash) (is_nil (trim_right_slashes s))).0 f in
          (
            suc k,
            rw f (
                ap (◌∷ s) ((==_iff c slash).0 g)
                ∙ ap (slash ∷◌)
                    (e ∙ ap (λ t. t ++ slashes k) (nil_of_is_nil (trim_right_slashes s) h))),
          )
      | inr f ↦ (k, rw f (ap (c ∷◌) e))
    ]

segments-trim_slashes : (s : Text) → segments (trim_slashes s) ≡ segments s
unfolding trim_slashes
segments-trim_slashes s =
    let (k, e) = trim_right_cut (trim_left_slashes s) in
    sym (segments-slashes (trim_right_slashes (trim_left_slashes s)) k)
    ∙ (sym (ap segments e) ∙ segments-trim_left s)

cut_IsNotSlash : (s : Text) → All IsNotSlash s → cut_last_slash s ≡ none
unfolding cut_last_slash
cut_IsNotSlash [] h = refl
cut_IsNotSlash (c ∷ s) h = rw (cut_IsNotSlash s h.1, h.0) refl

cut_last_slash-append :
    (s t : Text) → All IsNotSlash t → cut_last_slash (s ++ slash ∷ t) ≡ some (s, t)
unfolding cut_last_slash
cut_last_slash-append [] t h = rw (cut_IsNotSlash t h) refl
cut_last_slash-append (c ∷ s) t h = rw (cut_last_slash-append s t h) refl

cut_past :
    (s w : Text) {a b : Text}
    → cut_last_slash w ≡ some (a, b)
    → cut_last_slash (s ++ slash ∷ w) ≡ some (s ++ slash ∷ a, b)
unfolding cut_last_slash
cut_past [] w h = rw h refl
cut_past (c ∷ s) w h = rw (cut_past s w h) refl

cut_last_slash-join :
    (s t : Text) (ss : List Text)
    → All IsSegment (t ∷ ss)
    → (x : Text) × (cut_last_slash (join (s ∷ t ∷ ss)) ≡ some (join (drop_last (s ∷ t ∷ ss)), x))
unfolding join
cut_last_slash-join s t [] h = (t, cut_last_slash-append s t h.0.0)
cut_last_slash-join s t (u ∷ us) h =
    let (x, e) = cut_last_slash-join t u us h.1 in (x, cut_past s (join (t ∷ u ∷ us)) e)

nil_parent : parent_of (join []) ≡ join []
unfolding join cut_last_slash
nil_parent = refl

-- The parent of a path is the path without its last segment.
parent_of-join : (ss : List Text) → All IsSegment ss → parent_of (join ss) ≡ join (drop_last ss)
unfolding join
parent_of-join [] h = nil_parent
parent_of-join (s ∷ []) h = rw (cut_IsNotSlash s h.0.0, parent_of) refl
parent_of-join (s ∷ t ∷ ss) h =
    let (x, e) = cut_last_slash-join s t ss h.1 in rw (e, parent_of) refl

All-drop_last : (ss : List Text) → All IsSegment ss → All IsSegment (drop_last ss)
All-drop_last [] h = tt
All-drop_last (s ∷ []) h = tt
All-drop_last (s ∷ t ∷ ss) h = (h.0, All-drop_last (t ∷ ss) h.1)

All-after : (ps rest : List Text) → All IsSegment (ps ++ rest) → All IsSegment rest
All-after [] rest h = h
All-after (p ∷ ps) rest h = All-after ps rest h.1

nil_suffix : trim_prefix [] (slash ∷ []) ≡ join []
unfolding trim_prefix join
nil_suffix = refl

-- What is left of a group below a path, without the slash in front.
suffix_lem :
    (ps rest : List Text)
    → is_nil ps ≡ false
    → trim_prefix (trim_prefix (join (ps ++ rest)) (join ps)) (slash ∷ []) ≡ join rest
suffix_lem [] rest h = cc
suffix_lem (p ∷ ps) [] h = rw (append-nil (p ∷ ps), trim_prefix_self (join (p ∷ ps))) nil_suffix
suffix_lem (p ∷ ps) (r ∷ rest) h =
    rw (join-append p ps r rest, trim_prefix-append (join (p ∷ ps)) (slash ∷ join (r ∷ rest)))
      (trim_prefix-append (slash ∷ []) (join (r ∷ rest)))

abbrev pub or_else : Text → Text → Text
or_else d fallback = if is_nil d then fallback else d

joined_path :
    (ps rest : List Text)
    → All IsSegment ps
    → All IsSegment rest
    → normalize_connection_group (trim_slashes (join (join ps ∷ join rest ∷ [])))
      ≡ join (ps ++ rest)
unfolding normalize_connection_group join
joined_path ps rest a b = ap join {y = ps ++ rest} (
    segments-trim_slashes (join ps ++ slash ∷ join rest)
    ∙ (segments-append (join ps) (join rest) ∙ rw (segments-join ps a, segments-join rest b) refl))

-- A group below a path goes up by one level.
destination_lem :
    (ps rest : List Text) (fallback : Text)
    → is_nil ps ≡ false
    → All IsSegment ps
    → All IsSegment rest
    → destination (join ps) fallback (join (ps ++ rest))
      ≡ or_else (join (drop_last ps ++ rest)) fallback
destination_lem ps rest fallback h a b =
    rw
      (
        suffix_lem ps rest h,
        parent_of-join ps a,
        joined_path (drop_last ps) rest (All-drop_last ps a) b,
      )
      refl

-- A row outside the path is as it was; one below it keeps all but its group, which loses the last
-- segment of the path, or becomes the fallback where no segment is left.
abbrev pub IsMovedUp : Text → Text → ConnectionProfile → ConnectionProfile → Type 0
IsMovedUp path fallback row row' =
    ((group_contains_path path row.group ≡ false) × (row' ≡ row))
    ⊎ ((rest : List Text) × (segments row.group ≡ segments path ++ rest)
        × (row' ≡ record row {
          group =
              or_else (join (drop_last (segments path) ++ rest))
                (normalize_connection_group fallback);
        }))

contains-normalize :
    (path group : Text)
    → group_contains_path (normalize_connection_group path) (normalize_connection_group group)
      ≡ group_contains_path path group
unfolding group_contains_path
contains-normalize path group = rw (normalize-normalize path, normalize-normalize group) refl

moved_up-IsMovedUp :
    (path fallback : Text) (row : ConnectionProfile)
    → group_contains_path path row.group ≡ true
    → IsMovedUp path fallback row
        (moved_up (normalize_connection_group path) (normalize_connection_group fallback) row)
unfolding normalize_connection_group
moved_up-IsMovedUp path fallback row h =
    let (n, (rest, e)) = contains-IsBelow path row.group h in
    let all = subst (All IsSegment) e (segments-AreSegments row.group) in
    inr (
      rest,
      e,
      ap (λ g. record row { group = g })
          (ap (λ g. destination (join (segments path)) (join (segments fallback)) (join g)) e
            ∙ destination_lem (segments path) rest (join (segments fallback)) n
                (segments-AreSegments path) (All-after (segments path) rest all)),
    )

module _ (rows : List ConnectionProfile) (path fallback : Text) where
  abbrev p : Text
  p = normalize_connection_group path

  abbrev loop : List ConnectionProfile × ℕ
  loop =
      change_rows (λ row. group_contains_path p (normalize_connection_group row.group))
        (moved_up p (normalize_connection_group fallback)) rows

  loop_lem :
      RowsAgree (IsMovedUp path fallback) rows loop.0
      × (loop.1 ≡ count_rows (λ row. group_contains_path path row.group) rows)
  loop_lem = (
    change_rows-RowsAgree (λ row. group_contains_path p (normalize_connection_group row.group))
        (moved_up p (normalize_connection_group fallback)) (IsMovedUp path fallback)
        (λ row w.
          moved_up-IsMovedUp path fallback row (sym (contains-normalize path row.group) ∙ w))
        (λ row w. inl (sym (contains-normalize path row.group) ∙ w, refl)) rows,
    change_rows-count (λ row. group_contains_path p (normalize_connection_group row.group))
          (moved_up p (normalize_connection_group fallback)) rows
        ∙ count_rows-congr (λ row. group_contains_path p (normalize_connection_group row.group))
            (λ row. group_contains_path path row.group) (λ row. contains-normalize path row.group)
            rows,
  )

  -- A removal that succeeds moves exactly the rows of the group and below it up by one level, counts
  -- them, and there is one.
  pub remove_connection_group_lem :
      {next : List ConnectionProfile} {n : ℕ}
      → remove_connection_group rows path fallback ≡ inr (next, n)
      → RowsAgree (IsMovedUp path fallback) rows next
        × (n ≡ count_rows (λ row. group_contains_path path row.group) rows)
        × (0 < n)
  unfolding remove_connection_group
  remove_connection_group_lem {next} {n} h = elim (Bool-cases (is_nil p)) [
    | inl a ↦ let k = rw a at h in cc
    | inr a ↦
        let (e, q) = checked-inr loop (next, n) (rw a at h) in
        let (agree, count) = loop_lem in
        (
          subst (λ r. RowsAgree (IsMovedUp path fallback) rows r.0) e agree,
          sym (ap (λ r. r.1) e) ∙ count,
          subst (λ r. 0 < r.1) e q,
        )
  ]

  -- A removal succeeds whenever the path contains the group of some row.
  pub remove_connection_group-succeeds :
      (i : ℕ) {row : ConnectionProfile}
      → get_elem? rows i ≡ some row
      → group_contains_path path row.group ≡ true
      → (next : List ConnectionProfile) × (n : ℕ) × (remove_connection_group rows path fallback
          ≡ inr (next, n))
  unfolding remove_connection_group
  remove_connection_group-succeeds i {row} e h = elim (Bool-cases (is_nil p)) [
    | inl a ↦ let k = rw (a, group_contains_path) at h in cc
    | inr a ↦
        let pos = count_rows_pos (λ row. group_contains_path path row.group) rows i e h in
        (loop.0, loop.1, rw a (checked-pos loop (subst (λ n. 0 < n) (sym loop_lem.1) pos)))
  ]
