-- ===== src/HistoryStore/Lines.antt =====
-- How the reader of terminal/log.go splits what `Append` has written.
use nbterminal.Base.{
  ℕ, zero, suc, ◌<◌, ◌≡◌, refl, ap, ◌∙◌, Bool, true, false, ◌&&◌, not, some, List, [], ◌∷◌, ◌++◌,
  ◌==◌, length, take, last?, map, is_nil, All, Bool-cases, inl, inr, arith, lt→not_leb,
  append_assoc,
}
use nbterminal.HistoryStore.Entry.{Bytes}
use nbterminal.HistoryStore.Ring.{keep, ring}
use nbterminal.HistoryStore.File.{
  newline, carriage_return, max_terminal_line_bytes, split_lines, cons_byte, drop_cr, scan,
  ends_with_newline, Json, append_line, load_pending,
}

-- A byte that ends no line.
abbrev pub plain : ℕ → Bool
plain b = not (b == newline) && not (b == carriage_return)

abbrev pub IsPlain : Bytes → Type 0
IsPlain s = All (λ b. plain b ≡ true) s

not_newline : (b : ℕ) → plain b ≡ true → (b == newline) ≡ false
not_newline b h = ground arith

not_return : (b : ℕ) → plain b ≡ true → (b == carriage_return) ≡ false
not_return b h = ground arith

pub drop_cr_plain : (l : Bytes) → IsPlain l → drop_cr l ≡ l
unfolding drop_cr
drop_cr_plain [] h = refl
drop_cr_plain (b ∷ l) h = rw (not_return b h.0, drop_cr_plain l h.1) refl

pub take-IsPlain : (n : ℕ) (l : Bytes) → IsPlain l → IsPlain (take n l)
take-IsPlain zero l h = tt
take-IsPlain (suc n) [] h = tt
take-IsPlain (suc n) (b ∷ l) h = (h.0, take-IsPlain n l h.1)

pub split_plain : (l : Bytes) → IsPlain l → split_lines l ≡ ([], l)
unfolding split_lines
split_plain [] h = refl
split_plain (b ∷ l) h = rw (split_plain l h.1, not_newline b h.0) refl

pub split_line :
    (l s : Bytes)
    → IsPlain l
    → split_lines (l ++ newline ∷ s) ≡ (l ∷ (split_lines s).0, (split_lines s).1)
unfolding split_lines
split_line [] s h = refl
split_line (b ∷ l) s h = rw (split_line l s h.1, not_newline b h.0) refl

cons_byte_tail :
    (b : ℕ) (split : List Bytes × Bytes)
    → is_nil split.0 ≡ false
    → (is_nil (cons_byte b split).0 ≡ false) × ((cons_byte b split).1 ≡ split.1)
cons_byte_tail b ([], rest) h = cc
cons_byte_tail b (l ∷ ls, rest) h = (refl, refl)

-- After a newline somewhere, the last part is what follows the last one.
pub split_tail :
    (s rest : Bytes)
    → IsPlain rest
    → (is_nil (split_lines (s ++ newline ∷ rest)).0 ≡ false)
      × ((split_lines (s ++ newline ∷ rest)).1 ≡ rest)
unfolding split_lines
split_tail [] rest h = rw (split_plain rest h) (refl, refl)
split_tail (b ∷ s) rest h =
    let (n, e) = split_tail s rest h in
    elim (Bool-cases (b == newline)) [
      | inl t ↦ rw t (refl, e)
      | inr f ↦
          rw f (let (m, g) = cons_byte_tail b (split_lines (s ++ newline ∷ rest)) n in (m, g ∙ e))
    ]

pub last?_after : (s : Bytes) (b : ℕ) → last? (s ++ b ∷ []) ≡ some b
last?_after [] b = refl
last?_after (x ∷ []) b = refl
last?_after (x ∷ y ∷ s) b = last?_after (y ∷ s) b

pub ends_after : (s : Bytes) → ends_with_newline (s ++ newline ∷ []) ≡ true
unfolding ends_with_newline
ends_after s = rw (ends_with_newline, last?_after s newline) refl

-- A last part that is not empty has the last byte.
pub ends_plain :
    (s : Bytes) (b : ℕ) (l : Bytes) → IsPlain (b ∷ l) → ends_with_newline (s ++ b ∷ l) ≡ false
unfolding ends_with_newline
ends_plain [] b [] h = not_newline b h.0
ends_plain [] b (c ∷ l) h = ends_plain [] c l h.1
ends_plain (x ∷ []) b l h = ends_plain [] b l h
ends_plain (x ∷ y ∷ s) b l h = ends_plain (y ∷ s) b l h

pub is_nil-append : (s p : Bytes) → is_nil p ≡ false → is_nil (s ++ p) ≡ false
is_nil-append [] p h = h
is_nil-append (b ∷ s) p h = refl

module _ {Entry : Type 0} (json : Json Entry) where
  -- What package `encoding/json` and the size of its commands give a record: one line that fits the
  -- scanner, from which the entry comes back, and no proper part of which is JSON.
  pub record IsRecord (e : Entry) : Type 0 where
    pub one_line : IsPlain (json.encode e)
    pub not_empty : is_nil (json.encode e) ≡ false
    pub fits : length (json.encode e) < max_terminal_line_bytes
    pub decoded : json.decode (json.encode e) ≡ some e
    pub is_valid : json.valid (json.encode e) ≡ true
    pub cut_is_invalid :
        (n : ℕ) → n < length (json.encode e) → json.valid (take n (json.encode e)) ≡ false

  abbrev pub file_of : List Entry → Bytes
  file_of [] = []
  file_of (e ∷ es) = json.encode e ++ newline ∷ file_of es

  pub split_file :
      (es : List Entry) (rest : Bytes)
      → All IsRecord es
      → IsPlain rest
      → split_lines (file_of es ++ rest) ≡ (map json.encode es, rest)
  split_file [] rest h p = split_plain rest p
  split_file (e ∷ es) rest h p =
      ap split_lines (append_assoc (json.encode e) (newline ∷ file_of es) rest)
      ∙ split_line (json.encode e) (file_of es ++ rest) h.0.one_line
      ∙ ap (λ t. (json.encode e ∷ t.0, t.1)) (split_file es rest h.1 p)

  -- The scanner gives the records, and then what it gives of `ls`.
  pub scan_records :
      (es : List Entry) (ls ts : List Bytes) (b : Bool)
      → All IsRecord es
      → scan ls ≡ (ts, b)
      → scan (map json.encode es ++ ls) ≡ (map json.encode es ++ ts, b)
  unfolding scan
  scan_records [] ls ts b h q = q
  scan_records (e ∷ es) ls ts b h q =
      rw
        (
          scan_records es ls ts b h.1 q,
          drop_cr_plain (json.encode e) h.0.one_line,
          lt→not_leb (length (json.encode e)) max_terminal_line_bytes h.0.fits,
        )
        refl

  pub append_record :
      (limit : ℕ) (acc : List Entry) (e : Entry)
      → IsRecord e
      → append_line json limit acc (json.encode e) ≡ some (keep limit (acc ++ e ∷ []))
  unfolding append_line
  append_record limit acc e h = rw (append_line, h.decoded) refl

  load_step :
      (limit : ℕ) (b : Bool) (e : Entry) (l : Bytes) (ls : List Bytes) (acc : List Entry)
      → IsRecord e
      → load_pending json limit b false acc (json.encode e ∷ l ∷ ls)
        ≡ load_pending json limit b false (keep limit (acc ++ e ∷ [])) (l ∷ ls)
  unfolding load_pending
  load_step limit b e l ls acc h = rw (load_pending, append_record limit acc e h) refl

  -- The loop over records, and then over what comes after them.
  pub load_records :
      (limit : ℕ) (b : Bool) (es : List Entry) (ls : List Bytes) (acc : List Entry)
      → All IsRecord es
      → load_pending json limit b false acc (map json.encode es ++ ls)
        ≡ load_pending json limit b false (ring limit acc es) ls
  unfolding load_pending ring
  load_records limit b [] ls acc h = refl
  load_records limit b (e ∷ []) [] acc h = rw (append_record limit acc e h.0) refl
  load_records limit b (e ∷ []) (l ∷ ls) acc h = load_step limit b e l ls acc h.0
  load_records limit b (e ∷ next ∷ es) ls acc h =
      load_step limit b e (json.encode next) (map json.encode es ++ ls) acc h.0
      ∙ load_records limit b (next ∷ es) ls (keep limit (acc ++ e ∷ [])) h.1
