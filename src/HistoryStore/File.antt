-- ===== src/HistoryStore/File.antt =====
-- The file of `HistoryStore` (terminal/log.go, terminal/scanner.go): one line of JSON for each entry.
-- Package `encoding/json` is a parameter; every step on the file can fail, and a write that fails
-- leaves a part of its bytes.
use nbterminal.Base.{
  ℕ, Bool, true, false, ◌&&◌, ◌||◌, Option, none, some, List, [], ◌∷◌, ◌++◌, if◌then◌else◌, leb,
  ◌==◌, length, last?, is_nil, ◌⊎◌, inl, inr,
}
use nbterminal.Base.Int.{ℤ, pos_part}
use nbterminal.HistoryStore.Entry.{Bytes}
use nbterminal.HistoryStore.Ring.{keep}

abbrev pub newline : ℕ
newline = 0x0a

abbrev pub carriage_return : ℕ
carriage_return = 0x0d

abbrev pub max_terminal_line_bytes : ℕ
max_terminal_line_bytes = 10485760

pub data FileStep : Type 0 where
  mkdir open_file chmod stat read_at seek truncate_file marshal write sync close read remove :
      FileStep

pub data HistoryError : Type 0 where
  path_required record_too_large line_too_long not_json key_required : HistoryError
  failed : FileStep → HistoryError

-- What happens to the steps of one call: those that fail, and how many bytes a failing write leaves.
pub record Faults : Type 0 where
  pub fails : FileStep → Bool
  pub torn : ℕ

-- The lines that end in a newline, and what follows the last of them.
abbrev pub cons_byte : ℕ → List Bytes × Bytes → List Bytes × Bytes
cons_byte b ([], rest) = ([], b ∷ rest)
cons_byte b (l ∷ ls, rest) = ((b ∷ l) ∷ ls, rest)

abbrev pub cons_line : List Bytes × Bytes → List Bytes × Bytes
cons_line (ls, rest) = ([] ∷ ls, rest)

unfoldable pub split_lines : Bytes → List Bytes × Bytes
split_lines [] = ([], [])
split_lines (b ∷ s) =
    let split = split_lines s in if b == newline then cons_line split else cons_byte b split

-- `bufio.ScanLines` drops a carriage return at the end of a line.
unfoldable pub drop_cr : Bytes → Bytes
drop_cr [] = []
drop_cr (b ∷ l) = let rest = drop_cr l in if b == carriage_return && is_nil l then [] else b ∷ rest

-- The lines of the scanner, and whether it stops at one that does not fit its buffer.
unfoldable pub scan : List Bytes → List Bytes × Bool
unfolding drop_cr
scan [] = ([], false)
scan (l ∷ ls) =
    let (lines, too_long) = scan ls in
    if leb max_terminal_line_bytes (length l) then ([], true) else (drop_cr l ∷ lines, too_long)

abbrev pub raw_lines : List Bytes × Bytes → List Bytes
raw_lines (ls, rest) = if is_nil rest then ls else ls ++ rest ∷ []

-- `tail[len(tail)-1] == '\n'`.
unfoldable pub ends_with_newline : Bytes → Bool
ends_with_newline s = elim (last? s) [ none ↦ false | some b ↦ b == newline ]

-- What is left once the first line that is not empty comes.
unfoldable pub skip_empty : List Bytes → List Bytes
skip_empty [] = []
skip_empty (l ∷ ls) = let rest = skip_empty ls in if is_nil l then rest else l ∷ ls

pub record Json (Entry : Type 0) : Type 0 where
  pub encode : Entry → Bytes
  pub decode : Bytes → Option Entry
  pub valid : Bytes → Bool

module _ {Entry : Type 0} (json : Json Entry) where
  -- `appendLine`.
  unfoldable pub append_line : ℕ → List Entry → Bytes → Option (List Entry)
  unfolding keep
  append_line limit entries line = elim (json.decode line) [
    | none ↦ none
    | some entry ↦ some (keep limit (entries ++ entry ∷ []))
  ]

  -- The loop once a line waits in `pending`. The last line is the one that waits there when the
  -- scanner ends: where it is not JSON and the file does not end in a newline, it is left out. A line
  -- before it must be JSON.
  unfoldable pub load_pending :
      ℕ → Bool → Bool → List Entry → List Bytes → HistoryError ⊎ List Entry
  unfolding append_line
  load_pending limit newline_at_end too_long entries [] =
      if too_long then inl line_too_long else inr entries
  load_pending limit newline_at_end too_long entries (line ∷ []) =
      if too_long then inl line_too_long else elim (append_line limit entries line) [
        | none ↦ if newline_at_end then inl not_json else inr entries
        | some entries' ↦ inr entries'
      ]
  load_pending limit newline_at_end too_long entries (line ∷ next ∷ lines) =
      elim (append_line limit entries line) [
        | none ↦ inl not_json
        | some entries' ↦ load_pending limit newline_at_end too_long entries' (next ∷ lines)
      ]

  -- The whole loop: `append(pending[:0], ...)` of an empty line leaves a nil `pending` nil, so that the
  -- empty lines at the start of the file are passed over.
  unfoldable pub load_lines : ℕ → Bool → Bool → List Bytes → HistoryError ⊎ List Entry
  unfolding load_pending skip_empty
  load_lines limit newline_at_end too_long lines =
      load_pending limit newline_at_end too_long [] (skip_empty lines)

  abbrev pub load_scanned : ℕ → Bool → List Bytes × Bool → HistoryError ⊎ List Entry
  load_scanned limit newline_at_end (lines, too_long) =
      load_lines limit newline_at_end too_long lines

  -- `Load` of what the file holds.
  unfoldable pub load_bytes : ℕ → Bytes → HistoryError ⊎ List Entry
  unfolding load_lines split_lines scan ends_with_newline
  load_bytes limit s =
      load_scanned limit (is_nil s || ends_with_newline s) (scan (raw_lines (split_lines s)))

  abbrev pub check : Faults → FileStep → HistoryError ⊎ List Entry → HistoryError ⊎ List Entry
  check faults step rest = if faults.fails step then inl (failed step) else rest

  -- The last byte is read of a file that has one.
  abbrev pub check_last : Faults → Bytes → HistoryError ⊎ List Entry → HistoryError ⊎ List Entry
  check_last faults s rest = if is_nil s then rest else check faults read_at rest

  -- `Load` without a database; `none` is a file that does not exist. A read that fails does so before
  -- the first line.
  unfoldable pub load_file : Faults → Option Bytes → ℤ → HistoryError ⊎ List Entry
  unfolding load_bytes
  load_file faults none limit = check faults open_file (inr [])
  load_file faults (some s) limit =
      let lines = check faults read (load_bytes (pos_part limit) s) in
      check faults open_file
        (check faults chmod (check faults stat (check_last faults s (check faults seek lines))))
