-- ===== src/HistoryStore/Entry.antt =====
-- `HistoryEntry` and its making from the result of a command (terminal/log.go). In this part of the
-- library a string is the list of its bytes, and a time is its nanoseconds, with `none` for the zero
-- time; `normalizeUTF8` is a parameter, since it only calls package `utf8`.
use nbterminal.Base.{
  ℕ, zero, suc, ◌+◌, ◌-◌, ◌/◌, ◌^◌, Bool, true, false, ◌||◌, Option, none, some, List, ◌++◌,
  if◌then◌else◌, ltb, leb, ◌==◌, min, length, get_elem?, take, codes, decimal,
}
use nbterminal.Base.Int.{ℤ, pos_part, neg_part}

abbrev pub Bytes : Type 0
Bytes = List ℕ

abbrev pub Time : Type 0
Time = Option ℤ

abbrev pub history_output_max_bytes : ℕ
history_output_max_bytes = 65536

pub record HistoryEntry : Type 0 where
  pub time : Time
  pub connection_id : Bytes
  pub connection_name : Bytes
  pub connection_type : Bytes
  pub command : Bytes
  pub exit_code : ℤ
  pub duration_ms : ℕ
  pub interactive : Bool
  pub stdout : Bytes
  pub stderr : Bytes

-- `CommandResult`, with what an entry takes of its connection.
pub record CommandResult : Type 0 where
  pub id : Bytes
  pub name : Bytes
  pub type : Bytes
  pub command : Bytes
  pub started_at : Time
  pub finished_at : Time
  pub exit_code : ℤ
  pub stdout : Bytes
  pub stderr : Bytes

-- `utf8.RuneStart`: the byte is not of the form 10xxxxxx.
abbrev pub rune_start : ℕ → Bool
rune_start b = ltb b 128 || leb 192 b

abbrev pub starts_at : Bytes → ℕ → Bool
starts_at s i = elim (get_elem? s i) [ none ↦ true | some b ↦ rune_start b ]

-- The loop of `truncateHistoryOutput`, from `cut` down to the start of a rune or to 0.
unfoldable pub cut_back : Bytes → ℕ → ℕ
cut_back s zero = 0
cut_back s (suc cut) = let rest = cut_back s cut in if starts_at s (suc cut) then suc cut else rest

abbrev pub cut_or : ℕ → ℕ → ℕ
cut_or fallback cut = if cut == 0 then fallback else cut

-- The place where a text that is longer than `max` bytes is cut.
unfoldable pub cut_of : ℕ → Bytes → ℕ
unfolding cut_back
cut_of max s = cut_or max (cut_back s max)

abbrev pub truncated_note : ℕ → ℕ → Bytes
truncated_note size cut =
    codes "\n[NBTerminal history output truncated: original "
    ++ decimal size
    ++ codes " bytes, kept "
    ++ decimal cut
    ++ codes " bytes]"

module _ (normalize_utf8 : Bytes → Bytes) where
  -- `truncateHistoryOutput` of a text that `normalizeUTF8` has treated.
  unfoldable pub truncated : ℕ → Bytes → Bytes
  unfolding cut_of
  truncated max s =
      if leb (length s) max
      then s
      else take (cut_of max s) s ++ truncated_note (length s) (cut_of max s)

  unfoldable pub truncate_history_output : Bytes → Bytes
  unfolding truncated
  truncate_history_output s = truncated history_output_max_bytes (normalize_utf8 s)

  -- `finished.Sub(started)`, 0 where it is negative; a duration has 63 bits.
  abbrev pub elapsed : ℤ → ℤ → ℕ
  elapsed started finished =
      min (pos_part finished + neg_part started - (neg_part finished + pos_part started))
        (2 ^ 63 - 1)

  abbrev pub duration_ms_of : Time → Time → ℕ
  duration_ms_of (some started) (some finished) = elapsed started finished / 1000000
  duration_ms_of _ _ = 0

  -- `HistoryFromResult` at the time `now`.
  unfoldable pub history_from_result : Time → CommandResult → HistoryEntry
  unfolding truncate_history_output
  history_from_result now result = record {
    time = elim result.finished_at [ none ↦ now | some t ↦ some t ];
    connection_id = normalize_utf8 result.id;
    connection_name = normalize_utf8 result.name;
    connection_type = result.type;
    command = normalize_utf8 result.command;
    exit_code = result.exit_code;
    duration_ms = duration_ms_of result.started_at result.finished_at;
    interactive = false;
    stdout = truncate_history_output result.stdout;
    stderr = truncate_history_output result.stderr;
  }
