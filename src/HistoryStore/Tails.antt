-- ===== src/HistoryStore/Tails.antt =====
-- The last bytes of the file that `prepareHistoryAppend` (terminal/log.go) reads.
use nbterminal.Base.{
  drop-append_le, ◌≤◌, ◌<◌, ◌≡◌, refl, sym, ap, ◌∙◌, subst, false, ◌&&◌, List, [], ◌∷◌, ◌++◌,
  length, drop, is_nil, arith, append_assoc, ltb, length-append,
}
use nbterminal.HistoryStore.Entry.{Bytes}
use nbterminal.HistoryStore.File.{
  newline, max_terminal_line_bytes, split_lines, ends_with_newline, Json,
}
use nbterminal.HistoryStore.Append.{tail_start}
use nbterminal.HistoryStore.Lines.{
  IsPlain, split_plain, split_tail, ends_after, ends_plain, file_of,
}

small_start : (s : Bytes) → length s ≤ max_terminal_line_bytes → tail_start s ≡ 0
small_start s h = omega arith

-- The bytes that are read hold the last part, and a line before it where some are not read.
abbrev pub ReadsPart : Bytes → Bytes → Type 0
ReadsPart s p =
    ((split_lines (drop (tail_start s) s)).1 ≡ p)
    × ((is_nil (split_lines (drop (tail_start s) s)).0 && ltb 0 (tail_start s)) ≡ false)
    × (ends_with_newline (drop (tail_start s) s) ≡ is_nil p)

reads_alone :
    (p : Bytes) → IsPlain p → length p < max_terminal_line_bytes → is_nil p ≡ false → ReadsPart p p
reads_alone [] l f n = cc
reads_alone (b ∷ p) l f n =
    rw (small_start (b ∷ p) (omega arith), split_plain (b ∷ p) l) (refl, refl, ends_plain [] b p l)

ends_tail : (s p : Bytes) → IsPlain p → ends_with_newline (s ++ newline ∷ p) ≡ is_nil p
ends_tail s [] l = ends_after s
ends_tail s (b ∷ p) l =
    ap ends_with_newline (sym (append_assoc s (newline ∷ []) (b ∷ p)))
    ∙ ends_plain (s ++ newline ∷ []) b p l

reads_after :
    (s p : Bytes) → IsPlain p → length p < max_terminal_line_bytes → ReadsPart (s ++ newline ∷ p) p
reads_after s p l f =
    let k = tail_start (s ++ newline ∷ p) in
    let a = length-append s (newline ∷ p) in
    let q = drop-append_le k s (newline ∷ p) (omega arith) in
    let (n, r) = split_tail (drop k s) p l in
    (
      ap (λ t. (split_lines t).1) q ∙ r,
      ap (λ b. b && ltb 0 k) (ap (λ t. is_nil (split_lines t).0) q ∙ n),
      ap ends_with_newline q ∙ ends_tail (drop k s) p l,
    )

module _ {Entry : Type 0} (json : Json Entry) where
  file_end :
      (e : Entry) (es : List Entry) → (s : Bytes) × (file_of json (e ∷ es) ≡ s ++ newline ∷ [])
  file_end e [] = (json.encode e, refl)
  file_end e (next ∷ es) =
      let (s, p) = file_end next es in
      (
        json.encode e ++ newline ∷ s,
        ap (λ t. json.encode e ++ newline ∷ t) p
            ∙ sym (append_assoc (json.encode e) (newline ∷ s) _),
      )

  pub file_of-append :
      (es : List Entry) (e : Entry)
      → file_of json (es ++ e ∷ []) ≡ file_of json es ++ (json.encode e ++ newline ∷ [])
  file_of-append [] e = refl
  file_of-append (x ∷ es) e =
      ap (λ t. json.encode x ++ newline ∷ t) (file_of-append es e)
      ∙ sym (append_assoc (json.encode x) (newline ∷ file_of json es) _)

  pub reads_file :
      (es : List Entry) (p : Bytes)
      → IsPlain p
      → length p < max_terminal_line_bytes
      → is_nil (file_of json es ++ p) ≡ false
      → ReadsPart (file_of json es ++ p) p
  reads_file [] p l f n = reads_alone p l f n
  reads_file (e ∷ es) p l f n =
      let (s, q) = file_end e es in
      subst (λ t. ReadsPart t p) (sym (append_assoc s (newline ∷ []) p) ∙ ap (λ t. t ++ p) (sym q))
        (reads_after s p l f)
