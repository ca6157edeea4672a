-- ===== src/Examples/Histories.antt =====
-- Tests of the models of terminal/log.go and internal/security/codec.go.
use nbterminal.Base.{
  ℕ, zero, suc, ◌+◌, ◌-◌, ◌<◌, ◌≡◌, refl, ap, ◌∙◌, subst, Bool, true, false, ◌&&◌, Option, none,
  some, some_inj, List, [], ◌∷◌, ◌++◌, if◌then◌else◌, is_blank, last?, drop, drop_last, take, map,
  arith, ◌==◌, Text, codes, inl, inr,
}
use nbterminal.Base.Int.{pos, pos_part}
use nbterminal.HistoryStore.Entry.{Bytes, HistoryEntry, truncate_history_output}
use nbterminal.HistoryStore.Truncated.{IsTruncated, truncate-IsTruncated}
use nbterminal.HistoryStore.Ring.{recent}
use nbterminal.HistoryStore.File.{
  FileStep, write, failed, remove, Faults, Json, load_bytes, load_file, not_json,
}
use nbterminal.HistoryStore.Lines.{IsRecord}
use nbterminal.HistoryStore.Append.{append_file}
use nbterminal.HistoryStore.Survival.{append_all, Kept, Loads, load-append_all}
use nbterminal.HistoryStore.Query.{select_entries, last_command}
use nbterminal.HistoryStore.Selected.{
  of_connection, select_entries-recent, IsLast, last_command-IsLast,
}
use nbterminal.HistoryStore.Sqlite.{append_sqlite, load_sqlite, timed, on_file}
use nbterminal.HistoryStore.Held.{IsEntry, load-append}
use nbterminal.HistoryStore.Legacy.{migrate_legacy}
use nbterminal.HistoryStore.Retry.{disk, migrate_legacy-retry}
use nbterminal.Security.Cipher.{Cipher, IsCipher}
use nbterminal.Security.Codec.{Primitives, dot, split_dots, encrypt_payload, decrypt_payload}
use nbterminal.Security.Envelope.{
  HasNoDot, AreSound, IsAuthentic, decrypt-encrypt, decrypted-IsAuthentic,
}
use nbterminal.Database.Tx.{Tables}
use nbterminal.Database.Saved.{healthy}

abbrev entry : Bytes → HistoryEntry
entry command = record {
  time = some (pos 7);
  connection_id = codes "c";
  connection_name = [];
  connection_type = [];
  command = command;
  exit_code = pos 0;
  duration_ms = 0;
  interactive = false;
  stdout = [];
  stderr = [];
}

-- A command in braces stands for the JSON of an entry.
abbrev ends_in_brace : Option ℕ → Bool
ends_in_brace none = false
ends_in_brace (some b) = b == 0x7d

abbrev toy_valid : Bytes → Bool
toy_valid [] = false
toy_valid (b ∷ s) = b == 0x7b && ends_in_brace (last? s)

abbrev toy : Json HistoryEntry
toy = record {
  encode = λ e. 0x7b ∷ (e.command ++ 0x7d ∷ []);
  decode = λ s. if toy_valid s then some (entry (drop_last (drop 1 s))) else none;
  valid = toy_valid;
}

toy_sound : (s : Bytes) → toy_valid s ≡ false → toy.decode s ≡ none
toy_sound s h = rw h refl

abbrev ls : HistoryEntry
ls = entry (codes "l")

abbrev cd : HistoryEntry
cd = entry (codes "c")

ls_cut : (n : ℕ) → n < 3 → toy_valid (take n (codes "{l}")) ≡ false
ls_cut zero h = refl
ls_cut (suc zero) h = refl
ls_cut (suc (suc zero)) h = refl
ls_cut (suc (suc (suc n))) h = absurd (omega arith)

cd_cut : (n : ℕ) → n < 3 → toy_valid (take n (codes "{c}")) ≡ false
cd_cut zero h = refl
cd_cut (suc zero) h = refl
cd_cut (suc (suc zero)) h = refl
cd_cut (suc (suc (suc n))) h = absurd (omega arith)

ls-IsRecord : IsRecord toy ls
ls-IsRecord = record {
  one_line = (refl, (refl, (refl, tt)));
  not_empty = refl;
  fits = omega arith;
  decoded = refl;
  is_valid = refl;
  cut_is_invalid = ls_cut;
}

cd-IsRecord : IsRecord toy cd
cd-IsRecord = record {
  one_line = (refl, (refl, (refl, tt)));
  not_empty = refl;
  fits = omega arith;
  decoded = refl;
  is_valid = refl;
  cut_is_invalid = cd_cut;
}

abbrev calm : Faults
calm = record { fails = λ step. false; torn = 0 }

abbrev breaks_write : FileStep → Bool
breaks_write write = true
breaks_write _ = false

-- A write that stops after two bytes.
abbrev torn_write : Faults
torn_write = record { fails = breaks_write; torn = 2 }

abbrev calls : List (Faults × HistoryEntry)
calls = (calm, ls) ∷ (torn_write, cd) ∷ (calm, cd) ∷ []

after_calls :
    append_all toy none calls ≡ (none ∷ some (failed write) ∷ none ∷ [], some (codes "{l}\n{c}\n"))
unfolding append_all append_file
after_calls = refl

load-append_all_example :
    (es : List HistoryEntry) × Kept toy (append_all toy none calls).0 calls es
    × Loads toy calm (append_all toy none calls).1 (pos 5) (recent (pos_part (pos 5)) es)
load-append_all_example =
    load-append_all toy toy_sound calls calm (pos 5) (ls-IsRecord, (cd-IsRecord, (cd-IsRecord, tt)))

-- An encryption that puts what it draws before the text.
abbrev open_text : Text → Option Text
open_text [] = none
open_text (x ∷ p) = some p

abbrev toy_cipher : Cipher
toy_cipher = record { encrypt = λ draw p key. some (draw ∷ p); decrypt = λ s key. open_text s }

toy_cipher-IsCipher : IsCipher toy_cipher
toy_cipher-IsCipher = record {
  encrypts = λ draw p key n k. (draw ∷ p, refl, refl);
  decrypts = λ draw p key s h. subst (λ t. open_text t ≡ some p) (some_inj h) refl;
}

abbrev key : Text
key = codes "k"

key_not_blank : is_blank key ≡ false
unfolding is_blank
key_not_blank = refl

abbrev no_tables : Tables
no_tables = record { metadata = []; connections = []; history = [] }

ls-IsEntry : IsEntry toy toy_cipher key toy_cipher-IsCipher key_not_blank (pos 9) ls
ls-IsEntry = record { not_empty = refl; decodes = refl; not_epoch = refl }

load-append_example :
    ((append_sqlite toy toy_cipher (pos 9) 3 ls key (healthy no_tables)).0 ≡ none)
    × ((load_sqlite toy toy_cipher key
          (codes "c")
          (pos 2)
          (append_sqlite toy toy_cipher (pos 9) 3 ls key (healthy no_tables)).1).0
        ≡ inr (recent (pos_part (pos 2)) (of_connection (codes "c") ([] ++ timed (pos 9) ls ∷ []))))
load-append_example =
    load-append toy toy_cipher key toy_cipher-IsCipher key_not_blank (pos 9) 3 ls no_tables []
      (codes "c") (pos 2) ls-IsEntry tt

abbrev fingerprint : Text → Bytes → Text
fingerprint k s = 0x66 ∷ s

old_file : load_file toy (disk false) (some (codes "{l}\n")) (pos 0) ≡ inr (ls ∷ [])
unfolding load_file
old_file = refl

migrate_legacy-retry_example :
    let first =
      migrate_legacy toy toy_cipher fingerprint
        (disk true)
        (pos 9)
        3
        key
        (some (codes "{l}\n", true))
        (healthy no_tables) in
    (first.0 ≡ inl (on_file (failed remove)))
    × (migrate_legacy toy toy_cipher fingerprint
          (disk false)
          (pos 11)
          8
          key
          (some (codes "{l}\n", true))
          first.1.0
        ≡ (inr false, (first.1.0, none)))
migrate_legacy-retry_example =
    migrate_legacy-retry toy toy_cipher fingerprint key toy_cipher-IsCipher key_not_blank (pos 9)
      (pos 11) 3 8 (codes "{l}\n") no_tables (ls ∷ []) old_file (ls-IsEntry, tt)
      (record { not_empty = refl; decodes = refl; not_epoch = refl }, tt) refl

-- Empty lines at the start are passed over, one at the end is not.
empty_lines :
    (load_bytes toy 0 (codes "\n") ≡ inr [])
    × (load_bytes toy 0 (codes "\n\r\n{l}\n") ≡ inr (ls ∷ []))
    × (load_bytes toy 0 (codes "{l}\n\n") ≡ inl not_json)
unfolding load_bytes
empty_lines = (refl, refl, refl)

select_entries-recent_example :
    select_entries (codes "c") 1 (ls ∷ cd ∷ [])
    ≡ recent 1 (of_connection (codes "c") (ls ∷ cd ∷ []))
select_entries-recent_example = select_entries-recent (codes "c") 1 (ls ∷ cd ∷ [])

newest : select_entries (codes "c") 1 (ls ∷ cd ∷ []) ≡ cd ∷ []
unfolding select_entries
newest = refl

last_command-IsLast_example : IsLast (ls ∷ entry [] ∷ []) (last_command (ls ∷ entry [] ∷ []))
last_command-IsLast_example = last_command-IsLast (ls ∷ entry [] ∷ [])

truncate-IsTruncated_example :
    IsTruncated (λ s. s) (codes "short") (truncate_history_output (λ s. s) (codes "short"))
truncate-IsTruncated_example = truncate-IsTruncated (λ s. s) (codes "short")

-- Packages of which the encryption does nothing and base64 moves every rune away.
abbrev moved : Text → Text
moved s = map (λ c. c + 1000) s

abbrev moved_back : Text → Text
moved_back s = map (λ c. c - 1000) s

abbrev packages : Primitives
packages = record {
  gt_enc = λ draw p k. p;
  gt_dec = λ c k. c;
  encode64 = moved;
  decode64 = λ s. some (moved_back s);
  payload_mac = λ k v s. k ++ v ++ s;
}

moved_back-moved : (s : Text) → moved_back (moved s) ≡ s
moved_back-moved [] = refl
moved_back-moved (c ∷ s) =
    ap (λ b. b ∷ moved_back (moved s)) (omega arith) ∙ ap (c ∷◌) (moved_back-moved s)

moved-HasNoDot : (s : Text) → HasNoDot (moved s)
moved-HasNoDot [] = tt
moved-HasNoDot (c ∷ s) = (ground arith, moved-HasNoDot s)

packages-AreSound : AreSound packages
packages-AreSound = record {
  opens = λ draw p k. refl;
  not_empty = λ draw p k n m. n;
  decodes = λ s. ap some (moved_back-moved s);
  no_dot = moved-HasNoDot;
}

decrypt-encrypt_example :
    (s : Text) × (encrypt_payload packages 0 (codes "secret") key ≡ some s)
    × (decrypt_payload packages s key ≡ some (codes "secret"))
decrypt-encrypt_example =
    decrypt-encrypt packages packages-AreSound 0 (codes "secret") key refl refl

abbrev sealed : Text
sealed = codes "v1." ++ moved (codes "s") ++ dot ∷ moved (key ++ codes "v1" ++ moved (codes "s"))

sealed_opens : decrypt_payload packages sealed key ≡ some (codes "s")
unfolding decrypt_payload
sealed_opens = refl

decrypted-IsAuthentic_example : IsAuthentic packages (split_dots sealed) key
decrypted-IsAuthentic_example = decrypted-IsAuthentic packages sealed key (codes "s") sealed_opens
