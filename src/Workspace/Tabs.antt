-- ===== src/Workspace/Tabs.antt =====
-- The state of guis/session_workspace.go, and the methods that open, select and edit tabs.
use nbterminal.Base.{
  ℕ, ◌+◌, ◌%◌, ◌^◌, Bool, true, false, ◌&&◌, Option, none, some, List, [], ◌∷◌, ◌++◌, leb,
  if◌then◌else◌, length, get_elem?, set, Text, codes, text_eq, is_blank, trim_space, decimal,
  decimal-injective, drop, ap, ◌≡◌,
}
use nbterminal.Base.Int.{ℤ, pos, negsuc}
use nbterminal.Profile.{ConnectionProfile}

pub data SessionStatus : Type 0 where
  idle running succeeded failed stopped : SessionStatus

pub record TerminalTabState : Type 0 where
  pub id : Text
  pub profile_id : Text
  pub instance_number : ℕ
  pub profile : ConnectionProfile
  pub command_draft : Text
  pub output : Text
  pub terminal_title : Text
  pub custom_title : Text
  pub current_directory : Text
  pub needs_attention : Bool
  pub bell_muted : Bool
  pub input_locked : Bool
  pub pinned : Bool
  pub status : SessionStatus
  pub run_id : Text

pub record SessionWorkspace : Type 0 where
  pub tabs : List TerminalTabState
  pub active_index : ℤ
  pub profile_selection : Text
  pub next_runtime_id : ℕ  -- uint64
  pub closed_profiles : List ConnectionProfile

abbrev pub uint64_mod : ℕ
uint64_mod = 2 ^ 64

unfoldable pub new_session_workspace : SessionWorkspace
new_session_workspace = record {
  tabs = [];
  active_index = negsuc 0;
  profile_selection = [];
  next_runtime_id = 0;
  closed_profiles = [];
}

-- `xs[i]` behind the guard `i < 0 || i >= len(xs)`.
abbrev pub at_index {ℓ} : {A : Type ℓ} → List A → ℤ → Option A
at_index xs (pos i) = get_elem? xs i
at_index xs (negsuc n) = none

-- The tab that an index stands for, if it is in range.
abbrev pub tab_at : SessionWorkspace → ℤ → Option TerminalTabState
tab_at w i = at_index w.tabs i

unfoldable pub active : SessionWorkspace → Option TerminalTabState
active w = tab_at w w.active_index

-- The loop over the tabs in `Open`: one more than the largest number of the profile.
unfoldable pub next_instance : Text → List TerminalTabState → ℕ → ℕ
next_instance pid [] n = n
next_instance pid (t ∷ ts) n =
    next_instance pid ts
      (if text_eq t.profile_id pid && leb n t.instance_number then t.instance_number + 1 else n)

abbrev pub runtime_id : ℕ → Text
runtime_id n = codes "runtime-" ++ decimal n

pub runtime_id-injective : (a b : ℕ) → runtime_id a ≡ runtime_id b → a ≡ b
runtime_id-injective a b h = decimal-injective a b (ap (drop 8) h)

-- The tab that `Open` appends.
abbrev pub fresh_tab : Text → ConnectionProfile → ℕ → ℕ → TerminalTabState
fresh_tab welcome p number runtime = record {
  id = runtime_id runtime;
  profile_id = p.id;
  instance_number = number;
  profile = p;
  command_draft = [];
  output = welcome;
  terminal_title = [];
  custom_title = [];
  current_directory = [];
  needs_attention = false;
  bell_muted = false;
  input_locked = false;
  pinned = false;
  status = idle;
  run_id = [];
}

-- `welcome` is the localized text of `terminalWelcomeText`.
unfoldable pub open_profile :
    Text → SessionWorkspace → ConnectionProfile → SessionWorkspace × ℤ × Bool
unfolding next_instance
open_profile welcome w p =
    let runtime : ℕ = (w.next_runtime_id + 1) % uint64_mod in
    let number = next_instance p.id w.tabs 1 in
    if is_blank p.id then (w, negsuc 0, false) else (
      record w {
        tabs = w.tabs ++ fresh_tab welcome p number runtime ∷ [];
        active_index = pos (length w.tabs);
        next_runtime_id = runtime;
      },
      pos (length w.tabs),
      true,
    )

-- A write to the tab at an index, `none` if the index is out of range.
abbrev pub update_at :
    SessionWorkspace → ℤ → (TerminalTabState → TerminalTabState) → Option SessionWorkspace
update_at w (negsuc n) f = none
update_at w (pos i) f = elim (get_elem? w.tabs i) [
  | none ↦ none
  | some t ↦ some (record w { tabs = set w.tabs i (f t) })
]

-- A refused call leaves the workspace as it was.
abbrev pub or_refused : SessionWorkspace → Option SessionWorkspace → SessionWorkspace × Bool
or_refused w none = (w, false)
or_refused w (some w') = (w', true)

unfoldable pub select : SessionWorkspace → ℤ → SessionWorkspace × Bool
select w i =
    or_refused w
      (update_at (record w { active_index = i }) i (λ t. record t { needs_attention = false }))

unfoldable pub set_profile_selection : SessionWorkspace → Text → SessionWorkspace
set_profile_selection w pid = record w { profile_selection = trim_space pid }

unfoldable pub set_active_draft : SessionWorkspace → Text → SessionWorkspace × Bool
set_active_draft w draft =
    or_refused w (update_at w w.active_index (λ t. record t { command_draft = draft }))

unfoldable pub set_active_output : SessionWorkspace → Text → SessionWorkspace × Bool
set_active_output w output =
    or_refused w (update_at w w.active_index (λ t. record t { output = output }))

unfoldable pub append_active_output : SessionWorkspace → Text → SessionWorkspace × Bool
append_active_output w more =
    or_refused w (update_at w w.active_index (λ t. record t { output = t.output ++ more }))
