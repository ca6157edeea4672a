-- ===== src/Profile.antt =====
-- The saved connection profile of guis/guis.go.
use nbterminal.Base.{ℕ, Bool, Text, codes}

-- The two values of `connectionType` that the program names, and any other string.
pub data ConnectionType : Type 0 where
  ssh local : ConnectionType
  other : Text → ConnectionType

pub record ConnectionProfile : Type 0 where
  pub id : Text
  pub name : Text
  pub group : Text
  pub type : ConnectionType
  pub host : Text
  pub port : ℕ
  pub username : Text
  pub password_enc : Text
  pub private_key : Text
  pub working_dir : Text
  pub last_used : Text
  pub favorite : Bool
  pub description : Text

-- `string(p.Type)`.
abbrev pub type_text : ConnectionType → Text
type_text ssh = codes "ssh"
type_text local = codes "local"
type_text (other s) = s
