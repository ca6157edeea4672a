-- ===== src/Examples/ConnectionStores.antt =====
-- Tests of the model of guis/connection_store_sqlite.go.
use nbterminal.Base.{
  All, ℕ, ◌+◌, ◌≡◌, refl, subst, true, false, Option, none, some, some_inj, List, [], ◌∷◌, is_blank,
  Text, codes, inr, ◌⊎◌,
}
use nbterminal.Profile.{ConnectionProfile, ssh}
use nbterminal.Security.Cipher.{Cipher, IsCipher}
use nbterminal.Database.Tx.{Tables}
use nbterminal.Database.Saved.{healthy}
use nbterminal.ConnectionStore.Normalize.{
  Texts, blank_profile, normalize_profiles, normalized_active_profile_id,
}
use nbterminal.ConnectionStore.Identities.{AreIdentified, IsActive}
use nbterminal.ConnectionStore.Settled.{normalize_profiles_idem}
use nbterminal.ConnectionStore.Rows.{StoreError, ProfileJson}
use nbterminal.ConnectionStore.Sqlite.{AppConfig, ConnectionStore, save_active_sqlite}
use nbterminal.ConnectionStore.Outcome.{IsUnchanged, IsSaved, save_active_lem}
use nbterminal.ConnectionStore.RoundTrip.{IsProfile}
use nbterminal.ConnectionStore.Loading.{load_store}
use nbterminal.ConnectionStore.Opened.{opened_on, opened_store}
use nbterminal.ConnectionStore.Reopened.{load-save_active}

abbrev english : Texts
english = record {
  new_connection = codes "New";
  default_group = codes "Default";
  local_shell = codes "Shell";
  local_group = codes "Local";
  local_description = [];
  example_ssh = codes "Example";
  examples_group = codes "Examples";
  ssh_description = [];
}

abbrev clock : ℕ → ℕ
clock i = 5 + i

abbrev named : Text → ConnectionProfile
named id = record blank_profile { id = id }

abbrev settled : Text → ConnectionProfile
settled id = record blank_profile {
  id = id;
  name = codes "New";
  group = codes "Default";
  type = ssh;
  port = 22;
}

abbrev given : List ConnectionProfile
given = named (codes " a ") ∷ named (codes "a") ∷ named [] ∷ []

normalized :
    normalize_profiles english clock given
    ≡ settled (codes "a") ∷ settled (codes "a-2") ∷ settled (codes "conn-7-2") ∷ []
unfolding normalize_profiles
normalized = refl

normalize_profiles_idem_example :
    normalize_profiles english (λ i. 0) (normalize_profiles english clock given)
    ≡ normalize_profiles english clock given
normalize_profiles_idem_example = normalize_profiles_idem english clock (λ i. 0) given

-- The JSON of a settled profile is its identity here.
abbrev toy : ProfileJson
toy = record {
  encode = λ p. p.id;
  decode = λ s. some (settled s);
  decode_list = λ s. some (settled s ∷ []);
}

abbrev open_text : Text → Option Text
open_text [] = none
open_text (x ∷ p) = some p

abbrev toy_cipher : Cipher
toy_cipher = record { encrypt = λ draw p key. some (draw ∷ p); decrypt = λ s key. open_text s }

toy_cipher-IsCipher : IsCipher toy_cipher
toy_cipher-IsCipher = record {
  encrypts = λ draw p key n k. (draw ∷ p, refl, refl);
  decrypts = λ draw p key s h. subst (λ t. open_text t ≡ some p) (some_inj h) refl;
}

abbrev key : Text
key = codes "k"

key_not_blank : is_blank key ≡ false
unfolding is_blank
key_not_blank = refl

abbrev two : List ConnectionProfile
two = settled (codes "a") ∷ settled (codes "b") ∷ []

settled-IsProfile :
    (c : ℕ) (id : Text)
    → IsProfile toy toy_cipher key toy_cipher-IsCipher key_not_blank (settled (c ∷ id))
settled-IsProfile c id = record { not_empty = refl; decodes = refl }

abbrev no_tables : Tables
no_tables = record { metadata = []; connections = []; history = [] }

abbrev old_config : AppConfig ℕ
old_config = record {
  is_loaded = true;
  has_path = true;
  save_fails = true;
  connections = 1 ∷ [];
  active_connection_id = [];
}

abbrev old_store : ConnectionStore ℕ
old_store = record {
  encryption_key = key;
  list = two;
  active_id = codes "b";
  db = healthy no_tables;
  config = old_config;
  legacy = none;
}

save_active_lem_example :
    let rows = normalize_profiles english clock given in
    let active = normalized_active_profile_id rows (codes "z") in
    let o = save_active_sqlite toy toy_cipher english clock 3 4 given (codes "z") old_store in
    (IsUnchanged toy toy_cipher english old_store o ⊎ IsSaved toy toy_cipher english rows active o)
    × AreIdentified [] rows
    × IsActive english clock rows active
save_active_lem_example =
    save_active_lem toy toy_cipher english clock 3 4 given (codes "z") old_store

abbrev saved_two : Option StoreError × ConnectionStore ℕ
saved_two =
    save_active_sqlite toy toy_cipher english clock 3 4 two (codes "b")
      (opened_store key no_tables old_config)

two_kept :
    All
      (IsProfile toy toy_cipher key toy_cipher-IsCipher key_not_blank)
      (normalize_profiles english clock two)
unfolding normalize_profiles
two_kept = (settled-IsProfile _ _, (settled-IsProfile _ _, tt))

load-save_active_example :
    let rows = normalize_profiles english clock two in
    let r =
      load_store toy toy_cipher english
        (λ i. 0)
        []
        (λ rows. [])
        5
        6
        (opened_on key saved_two.1.db old_config) in
    (saved_two.0 ≡ none)
    × (r.0 ≡ inr tt)
    × (r.1.list ≡ rows)
    × (r.1.active_id ≡ normalized_active_profile_id rows (codes "b"))
load-save_active_example =
    load-save_active toy toy_cipher english key toy_cipher-IsCipher key_not_blank clock (λ i. 0) []
      (λ rows. []) 3 4 5 6 (settled (codes "a")) (settled (codes "b") ∷ []) (codes "b") no_tables
      old_config old_config two_kept
