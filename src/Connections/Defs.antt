-- ===== src/Connections/Defs.antt =====
-- `Connection` (terminal/connection.go): defaults, validation and unique identities. `unicode.ToLower`
-- is a parameter; the callback on host keys is a value of a third-party package.
use nbterminal.Base.{
  ℕ, zero, suc, ◌+◌, Bool, true, false, ◌&&◌, ◌||◌, Option, none, some, List, [], ◌∷◌, ◌++◌,
  if◌then◌else◌, is_nil, length, leb, ◌==◌, Text, codes, text_eq, trim_space, decimal, first_unseen,
  map,
}
use nbterminal.Base.Int.{ℤ, pos, ltb_ℤ, eq_ℤ}

pub record Connection (HostKeyCallback : Type 0) : Type 0 where
  pub id : Text
  pub name : Text
  pub type : Text
  pub host : Text
  pub port : ℤ
  pub username : Text
  pub password : Text
  pub private_key : Text
  pub working_dir : Text
  pub description : Text
  pub host_key_callback : Option HostKeyCallback

abbrev pub local_type : Text
local_type = codes "local"

abbrev pub ssh_type : Text
ssh_type = codes "ssh"

abbrev pub dash : ℕ
dash = 0x2d

-- The class `[a-z0-9._-]`.
abbrev pub is_safe : ℕ → Bool
is_safe c =
    (leb 0x61 c && leb c 0x7a) || (leb 0x30 c && leb c 0x39) || c == 0x2e || c == 0x5f || c == dash

-- `connectionIDUnsafe.ReplaceAllString(s, "-")`: a dash for each run of other runes.
unfoldable pub replace_unsafe : Bool → Text → Text
replace_unsafe in_run [] = []
replace_unsafe in_run (c ∷ s) = elim (is_safe c) [
  | true ↦ c ∷ replace_unsafe false s
  | false ↦ elim in_run [ true ↦ replace_unsafe true s | false ↦ dash ∷ replace_unsafe true s ]
]

unfoldable pub trim_left_dashes : Text → Text
trim_left_dashes [] = []
trim_left_dashes (c ∷ s) = let rest = trim_left_dashes s in if c == dash then rest else c ∷ s

unfoldable pub trim_right_dashes : Text → Text
trim_right_dashes [] = []
trim_right_dashes (c ∷ s) =
    let rest = trim_right_dashes s in if c == dash && is_nil rest then [] else c ∷ rest

-- `strings.Trim(s, "-")`.
unfoldable pub trim_dashes : Text → Text
unfolding trim_left_dashes trim_right_dashes
trim_dashes s = trim_right_dashes (trim_left_dashes s)

pub data ConnectionError : Type 0 where
  id_required name_required host_required port_out_of_range username_required secret_required :
      ConnectionError
  unsupported_type : Text → ConnectionError

module _ {K : Type 0} where
  abbrev pub default_local_connection : Connection K
  default_local_connection = record {
    id = codes "local-default";
    name = codes "Local Shell";
    type = local_type;
    host = [];
    port = pos 0;
    username = [];
    password = [];
    private_key = [];
    working_dir = [];
    description = codes "Run commands on this machine";
    host_key_callback = none;
  }

-- The base itself, then `base-2`, `base-3` and so on.
abbrev pub candidate : Text → ℕ → Text
candidate base zero = base
candidate base (suc n) = base ++ dash ∷ decimal (n + 2)

module _ (to_lower : ℕ → ℕ) where
  unfoldable pub slug_connection_id : Text → Text
  unfolding trim_space replace_unsafe trim_dashes
  slug_connection_id s = trim_dashes (replace_unsafe false (map to_lower (trim_space s)))

  abbrev pub or_text : Text → Text → Text
  or_text s fallback = if is_nil s then fallback else s

  -- The name that is given to a connection without one.
  abbrev pub default_name : Text → Text → Text
  default_name type host =
      if text_eq type local_type
      then codes "Local Shell"
      else if text_eq type ssh_type
      then host
      else []

  module _ {K : Type 0} where
    unfoldable pub normalize : Connection K → Connection K
    unfolding slug_connection_id text_eq
    normalize c =
        let name = trim_space c.name in
        let host = trim_space c.host in
        let type = or_text (trim_space c.type) local_type in
        record c {
          id = or_text (trim_space c.id) (or_text (trim_dashes (slug_connection_id name)) type);
          name = or_text name (default_name type host);
          type = type;
          host = host;
          port = if text_eq type ssh_type && eq_ℤ c.port (pos 0) then pos 22 else c.port;
          username = trim_space c.username;
          working_dir = trim_space c.working_dir;
        }

    abbrev pub check_ssh : Connection K → Option ConnectionError
    check_ssh c =
        if is_nil c.host
        then some host_required
        else if ltb_ℤ c.port (pos 1) || ltb_ℤ (pos 65535) c.port
        then some port_out_of_range
        else if is_nil c.username
        then some username_required
        else if is_nil c.password && is_nil c.private_key
        then some secret_required
        else none

    -- The tests of `Validate`, on the normalized connection.
    abbrev pub check : Connection K → Option ConnectionError
    check c =
        if is_nil c.id
        then some id_required
        else if is_nil c.name
        then some name_required
        else if text_eq c.type local_type
        then none
        else if text_eq c.type ssh_type
        then check_ssh c
        else some (unsupported_type c.type)

    unfoldable pub validate : Connection K → Option ConnectionError
    unfolding normalize text_eq
    validate c = check (normalize c)

  abbrev pub base_id : Text → Text
  base_id id = or_text (slug_connection_id id) (codes "connection")

  -- The loop of `uniqueConnectionID` ends after at most one round more than `seen` has entries.
  unfoldable pub unique_connection_id : Text → List Text → Text
  unfolding slug_connection_id decimal first_unseen
  unique_connection_id id seen = first_unseen (candidate (base_id id)) (suc (length seen)) 0 seen

  module _ {K : Type 0} where
    -- The loop of `NormalizeConnections`, with `n` connections in the output.
    unfoldable pub normalize_loop : List Text → ℕ → List (Connection K) → List (Connection K)
    unfolding normalize unique_connection_id
    normalize_loop seen n [] = []
    normalize_loop seen n (conn ∷ conns) =
        let c = normalize conn in
        let id =
          unique_connection_id (or_text c.id (codes "connection-" ++ decimal (n + 1))) seen in
        record c { id = id } ∷ normalize_loop (id ∷ seen) (n + 1) conns

    unfoldable pub normalize_connections : List (Connection K) → List (Connection K)
    unfolding normalize_loop
    normalize_connections [] = default_local_connection ∷ []
    normalize_connections (conn ∷ conns) = normalize_loop [] 0 (conn ∷ conns)
