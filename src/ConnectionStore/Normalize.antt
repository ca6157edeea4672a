-- ===== src/ConnectionStore/Normalize.antt =====
-- The lists of `connectionStore` (guis/guis.go): their normalization and the active connection.
-- Localized texts, the clock and the environment are arguments.
use nbterminal.Base.{
  ℕ, suc, ◌+◌, Bool, true, false, ◌&&◌, List, [], ◌∷◌, ◌++◌, if◌then◌else◌, is_nil, length, ◌==◌,
  Text, codes, text_eq, trim_space, decimal, first_unseen,
}
use nbterminal.Profile.{ConnectionType, ssh, local, other, ConnectionProfile, type_text}
use nbterminal.Connections.Defs.{candidate}

-- The texts of `tr` that are used here.
pub record Texts : Type 0 where
  pub new_connection : Text
  pub default_group : Text
  pub local_shell : Text
  pub local_group : Text
  pub local_description : Text
  pub example_ssh : Text
  pub examples_group : Text
  pub ssh_description : Text

abbrev pub or_default : Text → Text → Text
or_default s fallback = if is_nil s then fallback else s

abbrev pub base_profile_id : Text → Text
base_profile_id id = or_default (trim_space id) (codes "conn")

-- The loop of `uniqueProfileID` ends after at most one round more than `seen` has entries.
unfoldable pub unique_profile_id : Text → List Text → Text
unfolding trim_space decimal first_unseen
unique_profile_id id seen = first_unseen (candidate (base_profile_id id)) (suc (length seen)) 0 seen

-- The identity of a profile without one: the time at which the loop comes to it, and its index.
abbrev pub generated_id : ℕ → ℕ → Text
generated_id nanos i = codes "conn-" ++ decimal nanos ++ codes "-" ++ decimal i

abbrev pub or_ssh : ConnectionType → ConnectionType
or_ssh type = if is_nil (type_text type) then ssh else type

abbrev pub is_ssh : ConnectionType → Bool
is_ssh type = text_eq (type_text type) (codes "ssh")

abbrev pub blank_profile : ConnectionProfile
blank_profile = record {
  id = [];
  name = [];
  group = [];
  type = other [];
  host = [];
  port = 0;
  username = [];
  password_enc = [];
  private_key = [];
  working_dir = [];
  last_used = [];
  favorite = false;
  description = [];
}

module _ (texts : Texts) (clock : ℕ → ℕ) where
  abbrev pub with_defaults : ConnectionProfile → ConnectionProfile
  with_defaults p = record p {
    name = or_default p.name texts.new_connection;
    group = or_default p.group texts.default_group;
    type = or_ssh p.type;
    port = if is_ssh (or_ssh p.type) && p.port == 0 then 22 else p.port;
  }

  -- The loop of `normalizeLocked` from the index `i`.
  unfoldable pub normalize_from : ℕ → List Text → List ConnectionProfile → List ConnectionProfile
  unfolding unique_profile_id text_eq
  normalize_from i seen [] = []
  normalize_from i seen (p ∷ rows) =
      let id = unique_profile_id (or_default p.id (generated_id (clock i) i)) seen in
      record (with_defaults p) { id = id } ∷ normalize_from (i + 1) (id ∷ seen) rows

  -- `normalizeLocked`.
  unfoldable pub normalize_profiles : List ConnectionProfile → List ConnectionProfile
  unfolding normalize_from
  normalize_profiles rows = normalize_from 0 [] rows

  -- `defaultConnections`, with the variable USER.
  unfoldable pub default_profiles : Text → List ConnectionProfile
  default_profiles user =
      record blank_profile {
        id = codes "local-shell";
        name = texts.local_shell;
        group = texts.local_group;
        type = local;
        description = texts.local_description;
      }
      ∷ record blank_profile {
        id = codes "example-ssh";
        name = texts.example_ssh;
        group = texts.examples_group;
        type = ssh;
        host = codes "127.0.0.1";
        port = 22;
        username = user;
        description = texts.ssh_description;
      }
      ∷ []

abbrev pub has_profile : Text → List ConnectionProfile → Bool
has_profile id [] = false
has_profile id (p ∷ rows) = let rest = has_profile id rows in if text_eq p.id id then true else rest

abbrev pub first_id : List ConnectionProfile → Text
first_id [] = []
first_id (p ∷ rows) = p.id

-- `normalizedActiveProfileID`.
unfoldable pub normalized_active_profile_id : List ConnectionProfile → Text → Text
unfolding text_eq
normalized_active_profile_id rows active_id =
    if has_profile active_id rows then active_id else first_id rows
