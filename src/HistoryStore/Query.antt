-- ===== src/HistoryStore/Query.antt =====
-- `LoadForConnection` without a database and `LastCommand` (terminal/log.go), on what `Load` gives.
use nbterminal.Base.{
  ℕ, ◌&&◌, Option, none, some, List, [], ◌∷◌, ◌++◌, if◌then◌else◌, is_nil, length, drop, ltb, ◌-◌,
  text_eq, reverse, ◌⊎◌, inl, inr,
}
use nbterminal.Base.Int.{ℤ, pos, pos_part}
use nbterminal.HistoryStore.Entry.{Bytes, HistoryEntry}
use nbterminal.HistoryStore.Ring.{keep}
use nbterminal.HistoryStore.File.{HistoryError, Faults, Json, load_file}

-- The loop over the entries: those of another connection are left out.
unfoldable pub filter_entries :
    Bytes → ℕ → List HistoryEntry → List HistoryEntry → List HistoryEntry
unfolding keep text_eq
filter_entries id limit kept [] = kept
filter_entries id limit kept (e ∷ es) =
    let next = if text_eq e.connection_id id then keep limit (kept ++ e ∷ []) else kept in
    filter_entries id limit next es

unfoldable pub select_entries : Bytes → ℕ → List HistoryEntry → List HistoryEntry
unfolding filter_entries
select_entries id limit es =
    if is_nil id
    then (if ltb 0 limit && ltb limit (length es) then drop (length es - limit) es else es)
    else filter_entries id limit [] es

abbrev pub selected :
    Bytes → ℕ → HistoryError ⊎ List HistoryEntry → HistoryError ⊎ List HistoryEntry
selected id limit (inl e) = inl e
selected id limit (inr es) = inr (select_entries id limit es)

unfoldable pub load_for_connection_file :
    Json HistoryEntry → Faults → Option Bytes → Bytes → ℤ → HistoryError ⊎ List HistoryEntry
unfolding load_file select_entries
load_for_connection_file json faults file id limit =
    selected id (pos_part limit) (load_file json faults file (pos 0))

-- The loop of `LastCommand`, from the last entry to the first.
unfoldable pub last_of : List HistoryEntry → Option Bytes
last_of [] = none
last_of (e ∷ es) = let rest = last_of es in if is_nil e.command then rest else some e.command

unfoldable pub last_command : List HistoryEntry → Option Bytes
unfolding last_of
last_command es = last_of (reverse es)
