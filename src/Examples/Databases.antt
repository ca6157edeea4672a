-- ===== src/Examples/Databases.antt =====
-- Tests of the model of internal/database/database.go.
use nbterminal.Base.{◌≡◌, refl, true, false, [], ◌∷◌, Text, codes, inl, inr, none, text_eq}
use nbterminal.Base.Int.{pos}
use nbterminal.HistoryStore.Ring.{recent}
use nbterminal.Database.Tx.{
  ConnectionRow, HistoryRow, StoredHistory, Tables, Db, row_incomplete, statement_failed,
}
use nbterminal.Database.ConnectionTable.{load_connections, save_connections}
use nbterminal.Database.HistoryTable.{select_history}
use nbterminal.Database.Saved.{healthy, load-save}
use nbterminal.Database.Histories.{select_history-recent}

abbrev row_a : ConnectionRow
row_a = record { id = codes "x"; payload_enc = codes "p"; position = pos 0 }

abbrev row_b : ConnectionRow
row_b = record { id = codes "a"; payload_enc = codes "q"; position = pos 1 }

abbrev logged : HistoryRow
logged = record {
  recorded_at_ns = pos 5;
  connection_id = [];
  payload_enc = codes "e";
  legacy_source = codes "f";
  legacy_ordinal = pos 1;
}

abbrev nothing : Tables
nothing = record { metadata = []; connections = []; history = [] }

load-save_example :
    ((save_connections (row_a ∷ row_b ∷ []) (codes "x") (healthy nothing)).0 ≡ inr tt)
    × ((load_connections (save_connections (row_a ∷ row_b ∷ []) (codes "x") (healthy nothing)).1).0
        ≡ inr (row_a ∷ row_b ∷ [], codes "x"))
unfolding text_eq
load-save_example =
    load-save (row_a ∷ row_b ∷ []) (codes "x") nothing (refl, refl, (refl, refl, tt))
      (refl, (refl, tt))

-- The third statement fails.
abbrev broken : Db
broken = record { is_open = true; failures = false ∷ false ∷ true ∷ []; tables = nothing }

fails_late : (save_connections (row_a ∷ []) [] broken).0 ≡ inl statement_failed
unfolding save_connections
fails_late = refl

incomplete :
    (save_connections (record row_a { payload_enc = [] } ∷ []) [] (healthy nothing)).0
    ≡ inl row_incomplete
unfolding save_connections
incomplete = refl

abbrev kept : Text → StoredHistory
kept payload = record {
  recorded_at_ns = pos 5;
  connection_id = [];
  payload_enc = payload;
  legacy = none;
}

select_history-recent_example :
    select_history 1 (kept (codes "1") ∷ kept (codes "2") ∷ [])
    ≡ recent 1 (select_history 0 (kept (codes "1") ∷ kept (codes "2") ∷ []))
select_history-recent_example = select_history-recent 1 (kept (codes "1") ∷ kept (codes "2") ∷ [])
