-- ===== src/HistoryStore/Truncated.antt =====
-- Where `truncateHistoryOutput` (terminal/log.go) cuts.
use nbterminal.Base.{
  ℕ, zero, suc, ◌≤◌, ◌≡◌, refl, true, false, ◌⊎◌, inl, inr, ◌++◌, if-elim, leb, leb→le, length,
  take, arith,
}
use nbterminal.HistoryStore.Entry.{
  Bytes, history_output_max_bytes, starts_at, cut_back, cut_or, cut_of, truncated_note, truncated,
  truncate_history_output,
}

-- No rune starts behind `cut` up to `n`.
abbrev pub Skipped : Bytes → ℕ → ℕ → Type 0
Skipped s cut zero = cut ≡ 0
Skipped s cut (suc n) = (cut ≡ suc n) ⊎ ((starts_at s (suc n) ≡ false) × Skipped s cut n)

-- `cut` is the last place up to `max` where a rune starts, or 0 where none does.
abbrev pub IsCut : Bytes → ℕ → ℕ → Type 0
IsCut s max cut = (cut ≤ max) × Skipped s cut max × ((cut ≡ 0) ⊎ (starts_at s cut ≡ true))

cut_back-IsCut : (s : Bytes) (n : ℕ) → IsCut s n (cut_back s n)
unfolding cut_back
cut_back-IsCut s zero = (omega arith, refl, inl refl)
cut_back-IsCut s (suc n) =
    let (l, k, b) = cut_back-IsCut s n in
    if-elim (IsCut s (suc n)) (starts_at s (suc n)) (suc n) (cut_back s n)
      (λ e. (omega arith, inl refl, inr e)) (λ e. (omega arith, inr (e, k), b))

module _ (normalize_utf8 : Bytes → Bytes) where
  abbrev pub IsTruncated : Bytes → Bytes → Type 0
  IsTruncated s out =
      ((length s ≤ history_output_max_bytes) × (out ≡ s))
      ⊎ ((cut : ℕ) × IsCut s history_output_max_bytes cut
          × (out
              ≡ take (cut_or history_output_max_bytes cut) s
                ++ truncated_note (length s) (cut_or history_output_max_bytes cut)))

  -- A short text stays; a long one is cut at the last start of a rune that fits, and at the bound where
  -- there is none, and a note says so.
  pub truncate-IsTruncated :
      (s : Bytes) → IsTruncated (normalize_utf8 s) (truncate_history_output normalize_utf8 s)
  unfolding truncate_history_output truncated cut_of
  truncate-IsTruncated s =
      let t = normalize_utf8 s in
      let max = history_output_max_bytes in
      let cut = cut_or max (cut_back t max) in
      if-elim (IsTruncated t) (leb (length t) max) t (take cut t ++ truncated_note (length t) cut)
        (λ e. inl (leb→le (length t) max e, refl))
        (λ e. inr (cut_back t max, cut_back-IsCut t max, refl))
