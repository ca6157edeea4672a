-- ===== src/HistoryStore/Append.antt =====
-- `Append` without a database and `prepareHistoryAppend` (terminal/log.go).
use nbterminal.Base.{
  ℕ, ◌+◌, ◌-◌, ◌&&◌, Option, none, some, List, [], ◌∷◌, ◌++◌, if◌then◌else◌, ltb, length, take,
  drop, is_nil,
}
use nbterminal.HistoryStore.Entry.{Bytes}
use nbterminal.HistoryStore.File.{
  newline, max_terminal_line_bytes, FileStep, open_file, mkdir, chmod, stat, read_at, seek,
  truncate_file, marshal, write, sync, close, HistoryError, record_too_large, failed, Faults,
  split_lines, ends_with_newline, Json,
}

-- The error, if there is one, and what the file holds then.
abbrev pub Outcome : Type 0
Outcome = Option HistoryError × Bytes

abbrev pub attempt : Faults → FileStep → Bytes → Outcome → Outcome
attempt faults step s rest = if faults.fails step then (some (failed step), s) else rest

-- A write at the end; one that fails leaves the first `torn` bytes.
abbrev pub write_end : Faults → Bytes → Bytes → Outcome
write_end faults s bytes = attempt faults write (s ++ take faults.torn bytes) (none, s ++ bytes)

abbrev pub or_empty : Option Bytes → Bytes
or_empty none = []
or_empty (some s) = s

abbrev pub opened : Outcome → Option HistoryError × Option Bytes
opened (e, s) = (e, some s)

-- The bytes of the file before those that are read for a repair.
abbrev pub tail_start : Bytes → ℕ
tail_start s = length s - (max_terminal_line_bytes + 1)

module _ {Entry : Type 0} (json : Json Entry) where
  -- The end of the file is the record `lines.1`, after the lines `lines.0`.
  unfoldable pub repair : Faults → Bytes → List Bytes × Bytes → Outcome
  repair faults s (lines, record_bytes) =
      if is_nil lines && ltb 0 (tail_start s)
      then (some record_too_large, s)
      else if json.valid record_bytes
      then attempt faults seek s (write_end faults s (newline ∷ []))
      else attempt faults truncate_file s (
          attempt faults seek (take (length s - length record_bytes) s)
            (none, take (length s - length record_bytes) s))

  unfoldable pub prepare_history_append : Faults → Bytes → Outcome
  unfolding repair ends_with_newline split_lines
  prepare_history_append faults s = attempt faults stat s (
      if is_nil s
      then attempt faults seek s (none, s)
      else attempt faults read_at s (
          if ends_with_newline (drop (tail_start s) s)
          then attempt faults seek s (none, s)
          else repair faults s (split_lines (drop (tail_start s) s))))

  -- `closeWithError(nil)`.
  abbrev pub close_file : Faults → Bytes → Outcome
  close_file faults s = attempt faults close s (none, s)

  abbrev pub sync_file : Faults → Outcome → Outcome
  sync_file faults (some e, s) = (some e, s)
  sync_file faults (none, s) = attempt faults sync s (close_file faults s)

  -- `json.NewEncoder(f).Encode(entry)`, one write of the record and a newline, and what follows it.
  abbrev pub encode_entry : Faults → Entry → Outcome → Outcome
  encode_entry faults entry (some e, s) = (some e, s)
  encode_entry faults entry (none, s) =
      attempt faults marshal s
        (sync_file faults (write_end faults s (json.encode entry ++ newline ∷ [])))

  -- `Append` without a database; opening the file makes it.
  unfoldable pub append_file : Faults → Option Bytes → Entry → Option HistoryError × Option Bytes
  unfolding prepare_history_append
  append_file faults file entry =
      if faults.fails mkdir
      then (some (failed mkdir), file)
      else if faults.fails open_file
      then (some (failed open_file), file)
      else opened (
          attempt faults chmod (or_empty file)
            (encode_entry faults entry (prepare_history_append faults (or_empty file))))
