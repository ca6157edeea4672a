-- ===== src/Groups/Contains.antt =====
-- Which groups a group contains: `groupContainsPath` of guis/group_rename.go, by segments.
use nbterminal.Base.{
  Bool, true, false, ◌||◌, List, [], ◌∷◌, ◌++◌, is_nil, ◌==◌, ◌≡◌, ◌↔◌, refl, sym, ap, ◌∙◌, subst,
  inl, inr, Bool-cases, Text, text_eq, text_eq_iff, text_eq_refl, All, ==_iff,
}
use mathlib.Core.Bool.{false≢true}
use mathlib.Core.List.{append_assoc, append-nil}
use nbterminal.Groups.Paths.{
  slash, join, segments, normalize_connection_group, has_prefix, cut_prefix, trim_prefix, is_within,
  group_contains_path,
}
use nbterminal.Groups.Segments.{
  IsSegment, segments-append, segments-AreSegments, segments-normalize,
}

has_prefix-cut : (s p : Text) → has_prefix s p ≡ true → s ≡ p ++ cut_prefix s p
unfolding has_prefix cut_prefix
has_prefix-cut s [] h = refl
has_prefix-cut [] (d ∷ p) h = cc
has_prefix-cut (c ∷ s) (d ∷ p) h = elim (Bool-cases (c == d)) [
  | inl e ↦ rw ((==_iff c d).0 e) (ap (d ∷◌) (has_prefix-cut s p (rw (e, has_prefix) at h)))
  | inr e ↦ let f = rw (e, has_prefix) at h in cc
]

pub has_prefix-append : (p r : Text) → has_prefix (p ++ r) p ≡ true
unfolding has_prefix
has_prefix-append [] [] = refl
has_prefix-append [] (c ∷ r) = refl
has_prefix-append (d ∷ p) r = rw ((==_iff d d).1 refl) (has_prefix-append p r)

pub cut_prefix-append : (p r : Text) → cut_prefix (p ++ r) p ≡ r
unfolding cut_prefix
cut_prefix-append [] [] = refl
cut_prefix-append [] (c ∷ r) = refl
cut_prefix-append (d ∷ p) r = cut_prefix-append p r

pub trim_prefix-append : (p r : Text) → trim_prefix (p ++ r) p ≡ r
unfolding trim_prefix
trim_prefix-append p r = rw (has_prefix-append p r) (cut_prefix-append p r)

-- A path within another is the other one, or goes on after a slash.
pub data Within (path : Text) : Text → Type 0 where
  itself : Within path path
  below : (r : Text) → Within path (path ++ slash ∷ r)

pub is_within-Within : (path group : Text) → is_within path group ≡ true → Within path group
is_within-Within path group h = elim (Bool-cases (text_eq group path)) [
  | inl e ↦ subst (Within path) (sym ((text_eq_iff group path).0 e)) itself
  | inr e ↦
      let f = has_prefix-cut group (path ++ slash ∷ []) (rw e at h) in
      subst (Within path)
        (sym (f ∙ append_assoc path (slash ∷ []) (cut_prefix group (path ++ slash ∷ []))))
        (below (cut_prefix group (path ++ slash ∷ [])))
]

or_true : (a : Bool) {b : Bool} → b ≡ true → a || b ≡ true
or_true true h = refl
or_true false h = h

has_prefix-slash : (path r : Text) → has_prefix (path ++ slash ∷ r) (path ++ slash ∷ []) ≡ true
has_prefix-slash path r =
    subst (λ t. has_prefix t (path ++ slash ∷ []) ≡ true) (append_assoc path (slash ∷ []) r)
      (has_prefix-append (path ++ slash ∷ []) r)

Within-is_within : (path : Text) {group : Text} → Within path group → is_within path group ≡ true
Within-is_within path itself = rw (text_eq_refl path) refl
Within-is_within path (below r) =
    or_true (text_eq (path ++ slash ∷ r) path) (has_prefix-slash path r)

-- The segments of `candidate` begin with those of `parent`.
abbrev pub IsBelow : List Text → List Text → Type 0
IsBelow parent candidate = (rest : List Text) × (candidate ≡ parent ++ rest)

Within-IsBelow :
    (path : Text) {group : Text} → Within path group → IsBelow (segments path) (segments group)
Within-IsBelow path itself = ([], sym (append-nil (segments path)))
Within-IsBelow path (below r) = (segments r, segments-append path r)

pub join-append :
    (p : Text) (ps : List Text) (q : Text) (qs : List Text)
    → join ((p ∷ ps) ++ q ∷ qs) ≡ join (p ∷ ps) ++ slash ∷ join (q ∷ qs)
unfolding join
join-append p [] q qs = refl
join-append p (p' ∷ ps) q qs =
    ap (λ t. p ++ slash ∷ t) (join-append p' ps q qs)
    ∙ sym (append_assoc p (slash ∷ join (p' ∷ ps)) (slash ∷ join (q ∷ qs)))

join_cons : (p : Text) (ps : List Text) → is_nil p ≡ false → is_nil (join (p ∷ ps)) ≡ false
unfolding join
join_cons p [] h = h
join_cons [] (q ∷ qs) h = cc
join_cons (c ∷ p) (q ∷ qs) h = refl

-- Joined segments that begin with others lie within them.
IsBelow-Within :
    (p : Text) (ps cs : List Text) → IsBelow (p ∷ ps) cs → Within (join (p ∷ ps)) (join cs)
IsBelow-Within p ps cs ([], e) =
    subst (λ c. Within (join (p ∷ ps)) (join c)) (sym (e ∙ append-nil (p ∷ ps))) itself
IsBelow-Within p ps cs (q ∷ qs, e) =
    subst (Within (join (p ∷ ps))) (sym (ap join e ∙ join-append p ps q qs)) (below (join (q ∷ qs)))

pub nonempty_of_join : (ss : List Text) → is_nil (join ss) ≡ false → is_nil ss ≡ false
unfolding join
nonempty_of_join [] h = h
nonempty_of_join (s ∷ ss) h = refl

pub contains-IsBelow :
    (parent candidate : Text)
    → group_contains_path parent candidate ≡ true
    → (is_nil (segments parent) ≡ false) × IsBelow (segments parent) (segments candidate)
unfolding group_contains_path
contains-IsBelow parent candidate h =
    elim (Bool-cases (is_nil (normalize_connection_group parent))) [
      | inl e ↦ absurd (false≢true (rw e at h))
      | inr e ↦
          let w =
            is_within-Within (normalize_connection_group parent)
              (normalize_connection_group candidate) (rw e at h) in
          (
            nonempty_of_join (segments parent) e,
            rw⁻¹ (segments-normalize parent, segments-normalize candidate)
                (Within-IsBelow (normalize_connection_group parent) w),
          )
    ]

IsBelow-is_within :
    (ps cs : List Text)
    → All IsSegment ps
    → is_nil ps ≡ false
    → IsBelow ps cs
    → (is_nil (join ps) ≡ false) × (is_within (join ps) (join cs) ≡ true)
IsBelow-is_within [] cs a h b = cc
IsBelow-is_within (p ∷ ps) cs a h b =
    (join_cons p ps a.0.2, Within-is_within (join (p ∷ ps)) (IsBelow-Within p ps cs b))

-- A group contains another exactly if it has segments and the other's segments begin with them.
pub group_contains_path_lem :
    (parent candidate : Text)
    → (group_contains_path parent candidate ≡ true)
      ↔ ((is_nil (segments parent) ≡ false) × IsBelow (segments parent) (segments candidate))
unfolding group_contains_path
group_contains_path_lem parent candidate = (
  contains-IsBelow parent candidate,
  λ h.
      let (e, w) =
        IsBelow-is_within (segments parent) (segments candidate) (segments-AreSegments parent) h.0
          h.1 in
      rw (e, w) refl,
)
