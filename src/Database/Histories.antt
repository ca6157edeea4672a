-- ===== src/Database/Histories.antt =====
-- The rows of the command history that internal/database/database.go reads.
use nbterminal.Base.{
  ℕ, zero, suc, ◌-◌, ◌≡◌, refl, sym, ap, ◌∙◌, List, [], ◌∷◌, arith, map, take, drop, reverse,
  reverse_onto, length, reverse-take-reverse, lt→ltb,
}
use nbterminal.HistoryStore.Ring.{recent}
use nbterminal.Database.Tx.{StoredHistory}
use nbterminal.Database.HistoryTable.{loaded, select_history}

map-reverse : {A B : Type 0} (f : A → B) (xs : List A) → map f (reverse xs) ≡ reverse (map f xs)
map-reverse {A} {B} f xs = go xs []
  where
    go : (ys zs : List A) → map f (reverse_onto ys zs) ≡ reverse_onto (map f ys) (map f zs)
    go [] zs = refl
    go (y ∷ ys) zs = go ys (y ∷ zs)

map-drop : {A B : Type 0} (f : A → B) (n : ℕ) (xs : List A) → map f (drop n xs) ≡ drop n (map f xs)
map-drop f zero xs = refl
map-drop f (suc n) [] = refl
map-drop f (suc n) (x ∷ xs) = map-drop f n xs

length-map : {A B : Type 0} (f : A → B) (xs : List A) → length (map f xs) ≡ length xs
length-map f [] = refl
length-map f (x ∷ xs) = ap suc (length-map f xs)

-- The rows that are asked for in descending order with a limit, and turned round, are the last of the
-- rows in ascending order.
pub select_history-recent :
    (limit : ℕ) (rows : List StoredHistory)
    → select_history limit rows ≡ recent limit (select_history 0 rows)
unfolding select_history recent
select_history-recent zero rows = refl
select_history-recent (suc n) rows = rw (lt→ltb 0 (suc n) (omega arith)) (
    sym (map-reverse loaded (take (suc n) (reverse rows)))
    ∙ ap (map loaded) (reverse-take-reverse (suc n) rows)
    ∙ map-drop loaded (length rows - suc n) rows
    ∙ ap (λ k. drop (k - suc n) (map loaded rows)) (sym (length-map loaded rows)))
