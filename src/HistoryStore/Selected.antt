-- ===== src/HistoryStore/Selected.antt =====
-- What the queries of terminal/log.go select of the log.
use nbterminal.Base.{
  ℕ, zero, suc, ◌-◌, ◌≡◌, refl, sym, ap, ◌∙◌, subst, true, false, ◌&&◌, ◌||◌, Option, none, some,
  List, [], ◌∷◌, ◌++◌, if◌then◌else◌, if-elim, is_nil, length, drop, ltb, text_eq, reverse,
  reverse-reverse, reverse-cons, inl, inr, arith, All, All-append_end, drop_zero, not_ltb→le,
  lt→ltb, Bool-cases, append_assoc,
}
use nbterminal.HistoryStore.Entry.{Bytes, HistoryEntry}
use nbterminal.HistoryStore.Ring.{keep, ring, recent, ring-nil}
use nbterminal.HistoryStore.Query.{filter_entries, select_entries, last_of, last_command}

-- The entries of the connection; all of them where none is given.
abbrev pub of_connection : Bytes → List HistoryEntry → List HistoryEntry
of_connection id [] = []
of_connection id (e ∷ es) =
    let rest = of_connection id es in
    if is_nil id || text_eq e.connection_id id then e ∷ rest else rest

filter-ring :
    (id : Bytes) (limit : ℕ) (es kept : List HistoryEntry)
    → is_nil id ≡ false
    → filter_entries id limit kept es ≡ ring limit kept (of_connection id es)
unfolding filter_entries ring
filter-ring id limit [] kept h = refl
filter-ring id limit (e ∷ es) kept h = elim (Bool-cases (text_eq e.connection_id id)) [
  | inl q ↦ rw (h, q) (filter-ring id limit es (keep limit (kept ++ e ∷ [])) h)
  | inr q ↦ rw (h, q) (filter-ring id limit es kept h)
]

pub of_connection_nil : (es : List HistoryEntry) → of_connection [] es ≡ es
of_connection_nil [] = refl
of_connection_nil (e ∷ es) = ap (e ∷◌) (of_connection_nil es)

cut-recent :
    (limit : ℕ) (es : List HistoryEntry)
    → (if ltb 0 limit && ltb limit (length es) then drop (length es - limit) es else es)
      ≡ recent limit es
unfolding recent
cut-recent zero es = refl
cut-recent (suc n) es = rw (lt→ltb 0 (suc n) (omega arith)) (
    if-elim (λ l. l ≡ drop (length es - suc n) es) (ltb (suc n) (length es))
      (drop (length es - suc n) es) es (λ e. refl)
      (λ e.
        let k = not_ltb→le (suc n) (length es) e in
        sym (drop_zero (length es - suc n) es (omega arith))))

-- For every connection and limit, the loops of `LoadForConnection` give the newest entries of that
-- connection, or of all where none is given.
pub select_entries-recent :
    (id : Bytes) (limit : ℕ) (es : List HistoryEntry)
    → select_entries id limit es ≡ recent limit (of_connection id es)
unfolding select_entries
select_entries-recent [] limit es =
    cut-recent limit es ∙ ap (recent limit) (sym (of_connection_nil es))
select_entries-recent (b ∷ id) limit es =
    filter-ring (b ∷ id) limit es [] refl ∙ ring-nil limit (of_connection (b ∷ id) es)

-- The command of the last entry that has one; all that follow have none.
abbrev pub IsLast : List HistoryEntry → Option Bytes → Type 0
IsLast es none = All (λ e. is_nil e.command ≡ true) es
IsLast es (some c) =
    (before : List HistoryEntry) × (e : HistoryEntry) × (after : List HistoryEntry) × (es
      ≡ before ++ e ∷ after)
    × (e.command ≡ c)
    × (is_nil c ≡ false)
    × All (λ x. is_nil x.command ≡ true) after

IsLast-append :
    (es : List HistoryEntry) (e : HistoryEntry) (o : Option Bytes)
    → is_nil e.command ≡ true
    → IsLast es o
    → IsLast (es ++ e ∷ []) o
IsLast-append es e none n h = All-append_end (λ x. is_nil x.command ≡ true) es e h n
IsLast-append es e (some c) n (before, x, after, q, r, m, h) = (
  before,
  x,
  after ++ e ∷ [],
  ap (λ l. l ++ e ∷ []) q ∙ append_assoc before (x ∷ after) (e ∷ []),
  r,
  m,
  All-append_end (λ y. is_nil y.command ≡ true) after e h n,
)

last_of-IsLast : (rs : List HistoryEntry) → IsLast (reverse rs) (last_of rs)
unfolding last_of
last_of-IsLast [] = tt
last_of-IsLast (e ∷ rs) =
    subst (λ l. IsLast l (last_of (e ∷ rs))) (sym (reverse-cons e rs))
      (if-elim (IsLast (reverse rs ++ e ∷ [])) (is_nil e.command) (last_of rs) (some e.command)
        (λ n. IsLast-append (reverse rs) e (last_of rs) n (last_of-IsLast rs))
        (λ n. (reverse rs, e, [], refl, refl, n, tt)))

-- `LastCommand` gives the last command that is not empty, and none only where all are empty.
pub last_command-IsLast : (es : List HistoryEntry) → IsLast es (last_command es)
unfolding last_command
last_command-IsLast es =
    subst (λ l. IsLast l (last_of (reverse es))) (reverse-reverse es) (last_of-IsLast (reverse es))
