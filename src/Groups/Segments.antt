-- ===== src/Groups/Segments.antt =====
-- Paths of connection groups (guis/connection_manager.go) as the lists of their segments.
use nbterminal.Base.{
  ℕ, false, List, [], ◌∷◌, ◌++◌, is_nil, ◌==◌, ◌≡◌, refl, ap, ◌∙◌, inl, inr, Bool-cases, Text,
  trim_space, trim_space_idem, All, All-trim_space,
}
use nbterminal.Groups.Paths.{
  slash, split, join, kept_parts, segments, normalize_connection_group, push,
}

abbrev pub IsNotSlash : ℕ → Type 0
IsNotSlash c = (c == slash) ≡ false

abbrev pub IsSegment : Text → Type 0
IsSegment s = All IsNotSlash s × (trim_space s ≡ s) × (is_nil s ≡ false)

push-append : (c : ℕ) (ps qs : List Text) → is_nil ps ≡ false → push c (ps ++ qs) ≡ push c ps ++ qs
push-append c [] qs h = cc
push-append c (p ∷ ps) qs h = refl

push-nonempty : (c : ℕ) (ps : List Text) → is_nil (push c ps) ≡ false
push-nonempty c [] = refl
push-nonempty c (p ∷ ps) = refl

split-nonempty : (s : Text) → is_nil (split s) ≡ false
unfolding split
split-nonempty [] = refl
split-nonempty (c ∷ s) = elim (Bool-cases (c == slash)) [
  | inl e ↦ rw e refl
  | inr e ↦ rw e (push-nonempty c (split s))
]

split-append : (s t : Text) → split (s ++ slash ∷ t) ≡ split s ++ split t
unfolding split
split-append [] t = refl
split-append (c ∷ s) t = elim (Bool-cases (c == slash)) [
  | inl e ↦ rw e (ap ([] ∷◌) (split-append s t))
  | inr e ↦
      rw e (ap (push c) (split-append s t) ∙ push-append c (split s) (split t) (split-nonempty s))
]

split-IsNotSlash : (s : Text) → All IsNotSlash s → split s ≡ s ∷ []
unfolding split
split-IsNotSlash [] h = refl
split-IsNotSlash (c ∷ s) h = rw (h.0, split-IsNotSlash s h.1) refl

kept_parts-append : (ps qs : List Text) → kept_parts (ps ++ qs) ≡ kept_parts ps ++ kept_parts qs
unfolding kept_parts
kept_parts-append [] qs = refl
kept_parts-append (p ∷ ps) qs = elim (Bool-cases (is_nil (trim_space p))) [
  | inl e ↦ rw e (kept_parts-append ps qs)
  | inr e ↦ rw e (ap (trim_space p ∷◌) (kept_parts-append ps qs))
]

-- A slash separates segments.
pub segments-append : (s t : Text) → segments (s ++ slash ∷ t) ≡ segments s ++ segments t
unfolding segments
segments-append s t = rw (split-append s t) (kept_parts-append (split s) (split t))

pub segments-IsSegment : (s : Text) → IsSegment s → segments s ≡ s ∷ []
unfolding segments kept_parts
segments-IsSegment s (a, b, c) = rw (split-IsNotSlash s a, b, c) refl

pub nil_segments : segments [] ≡ []
unfolding segments kept_parts split trim_space
nil_segments = refl

-- The segments of joined segments.
pub segments-join : (ss : List Text) → All IsSegment ss → segments (join ss) ≡ ss
unfolding join
segments-join [] h = nil_segments
segments-join (s ∷ []) h = segments-IsSegment s h.0
segments-join (s ∷ t ∷ ss) h =
    segments-append s (join (t ∷ ss))
    ∙ rw (segments-IsSegment s h.0, segments-join (t ∷ ss) h.1) refl

All-push :
    (c : ℕ) (ps : List Text)
    → IsNotSlash c
    → All (All IsNotSlash) ps
    → All (All IsNotSlash) (push c ps)
All-push c [] n h = ((n, tt), tt)
All-push c (p ∷ ps) n h = ((n, h.0), h.1)

split-parts : (s : Text) → All (All IsNotSlash) (split s)
unfolding split
split-parts [] = (tt, tt)
split-parts (c ∷ s) = elim (Bool-cases (c == slash)) [
  | inl e ↦ rw e (tt, split-parts s)
  | inr e ↦ rw e (All-push c (split s) e (split-parts s))
]

kept_parts-IsSegment : (ps : List Text) → All (All IsNotSlash) ps → All IsSegment (kept_parts ps)
unfolding kept_parts
kept_parts-IsSegment [] h = tt
kept_parts-IsSegment (p ∷ ps) h = elim (Bool-cases (is_nil (trim_space p))) [
  | inl e ↦ rw e (kept_parts-IsSegment ps h.1)
  | inr e ↦
      rw e ((All-trim_space IsNotSlash p h.0, trim_space_idem p, e), kept_parts-IsSegment ps h.1)
]

pub segments-AreSegments : (s : Text) → All IsSegment (segments s)
unfolding segments
segments-AreSegments s = kept_parts-IsSegment (split s) (split-parts s)

pub segments-normalize : (s : Text) → segments (normalize_connection_group s) ≡ segments s
unfolding normalize_connection_group
segments-normalize s = segments-join (segments s) (segments-AreSegments s)

-- Normalizing a path a second time changes nothing.
pub normalize-normalize :
    (s : Text)
    → normalize_connection_group (normalize_connection_group s) ≡ normalize_connection_group s
unfolding normalize_connection_group
normalize-normalize s = ap join (segments-normalize s)
