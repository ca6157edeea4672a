-- ===== src/HistoryStore/Shapes.antt =====
-- What the file of `HistoryStore` (terminal/log.go) can hold between two calls, and how its reader
-- takes it.
use nbterminal.Base.{
  ℕ, ◌<◌, ◌≡◌, refl, sym, ap, ◌∙◌, Bool, true, false, ◌||◌, Option, none, some, List, [], ◌∷◌, ◌++◌,
  length, map, is_nil, All, inr, append_nil, lt→not_leb,
}
use nbterminal.HistoryStore.Entry.{Bytes}
use nbterminal.HistoryStore.Ring.{recent, ring-nil, keep-recent}
use nbterminal.HistoryStore.File.{
  max_terminal_line_bytes, split_lines, scan, raw_lines, ends_with_newline, Json, append_line,
  load_pending, load_lines, skip_empty, load_scanned, load_bytes,
}
use nbterminal.HistoryStore.Append.{or_empty}
use nbterminal.HistoryStore.Lines.{
  IsPlain, drop_cr_plain, ends_plain, IsRecord, file_of, split_file, scan_records, is_nil-append,
  load_records, append_record,
}

-- No file; whole lines; lines and a part of a record; lines and a record without its newline.
pub data Shape (Entry : Type 0) : Type 0 where
  absent : Shape Entry
  clean : List Entry → Shape Entry
  torn : List Entry → Bytes → Shape Entry
  whole : List Entry → Entry → Shape Entry

-- The entries that have been recorded.
abbrev pub log : {Entry : Type 0} → Shape Entry → List Entry
log absent = []
log (clean es) = es
log (torn es p) = es
log (whole es e) = es ++ e ∷ []

module _ {Entry : Type 0} (json : Json Entry) where
  abbrev pub file : Shape Entry → Option Bytes
  file absent = none
  file (clean es) = some (file_of json es)
  file (torn es p) = some (file_of json es ++ p)
  file (whole es e) = some (file_of json es ++ json.encode e)

  pub record IsTorn (p : Bytes) : Type 0 where
    pub one_line : IsPlain p
    pub fits : length p < max_terminal_line_bytes
    pub not_empty : is_nil p ≡ false
    pub is_invalid : json.valid p ≡ false

  abbrev pub IsShape : Shape Entry → Type 0
  IsShape absent = Unit
  IsShape (clean es) = All (IsRecord json) es
  IsShape (torn es p) = All (IsRecord json) es × IsTorn p
  IsShape (whole es e) = All (IsRecord json) es × IsRecord json e

  scan_one :
      (l : Bytes) → IsPlain l → length l < max_terminal_line_bytes → scan (l ∷ []) ≡ (l ∷ [], false)
  unfolding scan
  scan_one l p h = rw (drop_cr_plain l p, lt→not_leb (length l) max_terminal_line_bytes h) refl

  skip_first : (l : Bytes) (ls : List Bytes) → is_nil l ≡ false → skip_empty (l ∷ ls) ≡ l ∷ ls
  unfolding skip_empty
  skip_first l ls h = rw h refl

  -- A record is not empty: no line is passed over.
  skip_records :
      (es : List Entry) (p : Bytes)
      → All (IsRecord json) es
      → is_nil p ≡ false
      → skip_empty (map json.encode es ++ p ∷ []) ≡ map json.encode es ++ p ∷ []
  skip_records [] p h n = skip_first p [] n
  skip_records (e ∷ es) p h n =
      skip_first (json.encode e) (map json.encode es ++ p ∷ []) h.0.not_empty

  skip_clean :
      (es : List Entry)
      → All (IsRecord json) es
      → skip_empty (map json.encode es ++ []) ≡ map json.encode es ++ []
  unfolding skip_empty
  skip_clean [] h = refl
  skip_clean (e ∷ es) h = skip_first (json.encode e) (map json.encode es ++ []) h.0.not_empty

  -- The reader of lines and a last part comes to the last part with the newest entries.
  load_parts :
      (limit : ℕ) (b : Bool) (es : List Entry) (p : Bytes)
      → All (IsRecord json) es
      → IsPlain p
      → length p < max_terminal_line_bytes
      → is_nil p ≡ false
      → load_scanned json limit b (scan (raw_lines (split_lines (file_of json es ++ p))))
        ≡ load_pending json limit b false (recent limit es) (p ∷ [])
  unfolding load_lines
  load_parts limit b es p h l f n =
      ap (λ t. load_scanned json limit b (scan (raw_lines t))) (split_file json es p h l)
      ∙ ap (λ t. load_scanned json limit b (scan t)) (rw n refl)
      ∙ ap (load_scanned json limit b)
          (scan_records json es (p ∷ []) (p ∷ []) false h (scan_one p l f))
      ∙ ap (load_pending json limit b false []) (skip_records es p h n)
      ∙ load_records json limit b es (p ∷ []) [] h
      ∙ ap (λ t. load_pending json limit b false t (p ∷ [])) (ring-nil limit es)

  -- A file of whole lines.
  load_clean :
      (limit : ℕ) (b : Bool) (es : List Entry)
      → All (IsRecord json) es
      → load_scanned json limit b (scan (raw_lines (split_lines (file_of json es))))
        ≡ inr (recent limit es)
  unfolding load_lines load_pending scan
  load_clean limit b es h =
      ap (λ t. load_scanned json limit b (scan (raw_lines (split_lines t))))
        (sym (append_nil (file_of json es)))
      ∙ ap (λ t. load_scanned json limit b (scan (raw_lines t))) (split_file json es [] h tt)
      ∙ ap (λ t. load_scanned json limit b (scan t)) (sym (append_nil (map json.encode es)))
      ∙ ap (load_scanned json limit b) (scan_records json es [] [] false h refl)
      ∙ ap (load_pending json limit b false []) (skip_clean es h)
      ∙ load_records json limit b es [] [] h
      ∙ ap inr (ring-nil limit es)

  pub unended :
      (s p : Bytes)
      → IsPlain p
      → is_nil p ≡ false
      → (is_nil (s ++ p) || ends_with_newline (s ++ p)) ≡ false
  unended s [] l n = cc
  unended s (b ∷ p) l n = rw (is_nil-append s (b ∷ p) n) (ends_plain s b p l)

  last_torn :
      (limit : ℕ) (b : Bool) (acc : List Entry) (p : Bytes)
      → b ≡ false
      → json.decode p ≡ none
      → load_pending json limit b false acc (p ∷ []) ≡ inr acc
  unfolding load_pending append_line
  last_torn limit b acc p e d = rw (d, e) refl

  module _ (sound : (s : Bytes) → json.valid s ≡ false → json.decode s ≡ none) where
    load_bytes-torn :
        (limit : ℕ) (es : List Entry) (p : Bytes)
        → IsShape (torn es p)
        → load_bytes json limit (file_of json es ++ p) ≡ inr (recent limit es)
    unfolding load_bytes
    load_bytes-torn limit es p (h, t) =
        load_parts limit _ es p h t.one_line t.fits t.not_empty
        ∙ last_torn limit _ (recent limit es) p (unended (file_of json es) p t.one_line t.not_empty)
            (sound p t.is_invalid)

    load_bytes-whole :
        (limit : ℕ) (es : List Entry) (e : Entry)
        → IsShape (whole es e)
        → load_bytes json limit (file_of json es ++ json.encode e)
          ≡ inr (recent limit (es ++ e ∷ []))
    unfolding load_bytes load_pending
    load_bytes-whole limit es e (h, r) =
        load_parts limit _ es (json.encode e) h r.one_line r.fits r.not_empty
        ∙ rw (append_record json limit (recent limit es) e r) (ap inr (keep-recent limit es e))

    pub load_bytes-Shape :
        (limit : ℕ) (sh : Shape Entry)
        → IsShape sh
        → load_bytes json limit (or_empty (file sh)) ≡ inr (recent limit (log sh))
    unfolding load_bytes
    load_bytes-Shape limit absent h = load_clean limit true [] tt
    load_bytes-Shape limit (clean es) h = load_clean limit _ es h
    load_bytes-Shape limit (torn es p) h = load_bytes-torn limit es p h
    load_bytes-Shape limit (whole es e) h = load_bytes-whole limit es e h
