-- ===== src/Workspace/Sessions.antt =====
-- Closing, reopening and duplicating tabs of guis/session_workspace.go, and whole sessions.
use nbterminal.Base.{
  ℕ, suc, ◌+◌, ◌-◌, ◌≤◌, ◌<◌, ◌≡◌, refl, ap, subst, inl, inr, Bool, true, false, Option, none, some,
  List, [], ◌∷◌, ◌++◌, arith, if◌then◌else◌, Bool-cases, Option-cases, some_inj, length, get_elem?,
  erase_idx, All-erase_idx, Text, last?, drop_last, is_nil, length-append, length-drop,
  length-erase_idx, lt-length_of_get_elem?, is_blank, not, ◌||◌, ◌&&◌, length-drop_last,
}
use nbterminal.Base.Int.{InRange, ℤ, pos, negsuc}
use nbterminal.Profile.{ConnectionProfile}
use nbterminal.Workspace.Tabs.{
  TerminalTabState, SessionWorkspace, open_profile, update_at, uint64_mod, or_refused, active,
  select, set_active_draft, set_active_output, append_active_output, set_profile_selection,
}
use nbterminal.Workspace.ById.{
  has_id, is_running, edit_by_id, edit_named, append_output, set_terminal_title, set_custom_title,
  set_working_directory, set_attention, ring, set_bell_muted, set_input_locked, finish_run, mute,
  owns_run,
}
use nbterminal.Workspace.Lifecycle.{
  closed_limit, remember_closed, active_after_close, close_found, close, reopen_last_closed,
  duplicate_active, duplicate_profile, keep_if_refused, inherit_directory, begin_run,
}
use nbterminal.Workspace.Action.{
  Action, opening, selecting, moving_active, moving, choosing_profile, drafting, printing,
  printing_more, printing_to, titling, renaming, changing_directory, ringing, muting, locking,
  pinning, beginning, finishing, closing, reopening, duplicating, perform,
}
use nbterminal.Workspace.Frame.{Distinct-erase_idx, PinnedFirst-erase_idx, Issued, IsEdit, IsEdit?}
use nbterminal.Workspace.Invariant.{IsValid, update_at-IsValid, set-IsValid, update_first-IsValid}
use nbterminal.Workspace.Preserve.{
  open_profile-IsValid, move-IsValid, move_active-IsValid, set_pinned-IsValid,
}

pub length-remember_closed :
    (ps : List ConnectionProfile) (p : ConnectionProfile)
    → length (remember_closed ps p) ≤ closed_limit
unfolding remember_closed
length-remember_closed ps p =
    ground
      (arith, length-append ps (p ∷ []), length-drop (length (ps ++ p ∷ []) - 20) (ps ++ p ∷ []))

active_after_close-InRange :
    (i n : ℕ) (a : ℤ) → i < suc n → InRange a (suc n) → InRange (active_after_close i n a) n
unfolding active_after_close
active_after_close-InRange i n (pos a) h r = ground arith
active_after_close-InRange i n (negsuc k) h r = ground arith

close_found-IsValid :
    {w : SessionWorkspace} (i : ℕ) (o : Option TerminalTabState)
    → get_elem? w.tabs i ≡ o
    → IsValid w
    → IsValid (close_found w i o).0
unfolding close_found
close_found-IsValid i none e v = v
close_found-IsValid {w} i (some t) e v =
    let inside = lt-length_of_get_elem? w.tabs i e in
    let shorter = length-erase_idx w.tabs i inside in
    elim (Bool-cases (is_running t.status || t.pinned)) [
      | inl refused ↦ rw refused v
      | inr closed ↦ rw closed (record {
        active_in_range =
            active_after_close-InRange i (length (erase_idx w.tabs i)) w.active_index (omega arith)
              (rw shorter v.active_in_range);
        are_tabs = record {
          issued = All-erase_idx (Issued w.next_runtime_id) w.tabs i v.are_tabs.issued;
          distinct = Distinct-erase_idx w.tabs i v.are_tabs.distinct;
          pinned_first = PinnedFirst-erase_idx w.tabs i v.are_tabs.pinned_first;
        };
        closed_bounded = length-remember_closed w.closed_profiles t.profile;
      })
    ]

pub close-IsValid : {w : SessionWorkspace} (i : ℤ) → IsValid w → IsValid (close w i).0
unfolding close
close-IsValid (negsuc n) v = v
close-IsValid (pos i) v = close_found-IsValid i _ refl v

without_last-IsValid :
    {w : SessionWorkspace}
    → IsValid w
    → IsValid (record w { closed_profiles = drop_last w.closed_profiles })
without_last-IsValid {w} v = record {
  active_in_range = v.active_in_range;
  are_tabs = v.are_tabs;
  closed_bounded = omega (arith, length-drop_last w.closed_profiles, v.closed_bounded);
}

-- The rest of the workspace has room for what `Open` refuses.
keep_if_refused-IsValid :
    (p : ConnectionProfile) (r : SessionWorkspace × ℤ × Bool)
    → suc (length r.0.closed_profiles) ≤ closed_limit
    → IsValid r.0
    → IsValid (keep_if_refused p r).0
keep_if_refused-IsValid p (w, i, true) room v = v
keep_if_refused-IsValid p (w, i, false) room v = record {
  active_in_range = v.active_in_range;
  are_tabs = v.are_tabs;
  closed_bounded = omega (arith, length-append w.closed_profiles (p ∷ []));
}

length-drop_last-some :
    (ps : List ConnectionProfile) {p : ConnectionProfile}
    → last? ps ≡ some p
    → suc (length (drop_last ps)) ≡ length ps
length-drop_last-some [] e = cc
length-drop_last-some (q ∷ []) e = refl
length-drop_last-some (q ∷ r ∷ ps) e = ap suc (length-drop_last-some (r ∷ ps) e)

-- `Open` leaves the history of closed profiles alone.
pub open_profile-closed :
    (welcome : Text) (w : SessionWorkspace) (p : ConnectionProfile)
    → (open_profile welcome w p).0.closed_profiles ≡ w.closed_profiles
unfolding open_profile
open_profile-closed welcome w p = ground arith

inherited :
    (dir : Text) (w : SessionWorkspace) (i : ℤ)
    → IsValid w
    → IsValid (elim (update_at w i (λ t. record t { current_directory = dir })) [
      | none ↦ w
      | some w' ↦ w'
    ])
inherited dir w (negsuc n) v = v
inherited dir w (pos i) v = elim (Option-cases (get_elem? w.tabs i)) [
  | inl e ↦ rw e v
  | inr (t, e) ↦
      rw e (set-IsValid i (λ s. record s { current_directory = dir }) (λ s. (refl, refl)) e v)
]

selected-IsValid :
    {w : SessionWorkspace} (i : ℕ)
    → i < length w.tabs
    → IsValid w
    → IsValid (record w { active_index = pos i })
selected-IsValid i h v = record {
  active_in_range = h;
  are_tabs = v.are_tabs;
  closed_bounded = v.closed_bounded;
}

pub reopen_last_closed-IsValid :
    (welcome : Text) {w : SessionWorkspace}
    → w.next_runtime_id + 1 < uint64_mod
    → IsValid w
    → IsValid (reopen_last_closed welcome w).0
unfolding reopen_last_closed
reopen_last_closed-IsValid welcome {w} small v = elim (Option-cases (last? w.closed_profiles)) [
  | inl e ↦ rw (e, reopen_last_closed) v
  | inr (p, e) ↦
      rw (e, reopen_last_closed)
        (keep_if_refused-IsValid p _
          (rw (open_profile-closed welcome _ p, length-drop_last-some w.closed_profiles e)
            v.closed_bounded)
          (open_profile-IsValid welcome p small (without_last-IsValid v)))
]

inherit_directory-IsValid :
    (dir : Text) (r : SessionWorkspace × ℤ × Bool)
    → IsValid r.0
    → IsValid (inherit_directory dir r).0
inherit_directory-IsValid dir (w, i, opened) v = elim (Bool-cases (opened && not (is_nil dir))) [
  | inl e ↦ rw e (inherited dir w i v)
  | inr e ↦ rw e v
]

pub duplicate_active-IsValid :
    (welcome : Text) {w : SessionWorkspace}
    → w.next_runtime_id + 1 < uint64_mod
    → IsValid w
    → IsValid (duplicate_active welcome w).0
unfolding duplicate_active
duplicate_active-IsValid welcome {w} small v = elim (Option-cases (active w)) [
  | inl e ↦ rw (e, duplicate_active) v
  | inr (t, e) ↦
      rw (e, duplicate_active)
        (inherit_directory-IsValid t.current_directory _
          (open_profile-IsValid welcome (duplicate_profile t) small v))
]

guarded-IsValid :
    {w : SessionWorkspace} (b : Bool) (r : SessionWorkspace × Bool)
    → IsValid w
    → IsValid r.0
    → IsValid (if b then (w, false) else r).0
guarded-IsValid true r v h = v
guarded-IsValid false r v h = h

always-IsEdit? : (f : TerminalTabState → TerminalTabState) → IsEdit f → IsEdit? (λ t. some (f t))
always-IsEdit? f edit t u e =
    subst (λ (x : TerminalTabState). (x.id ≡ t.id) × (x.pinned ≡ t.pinned)) (some_inj e) (edit t)

ring-IsEdit? : IsEdit? ring
ring-IsEdit? t u e = ground arith

module _ {w : SessionWorkspace} (id : Text) (v : IsValid w) where
  edit_by_id-IsValid :
      (act : TerminalTabState → Option TerminalTabState)
      → IsEdit? act
      → IsValid (edit_by_id w id act).0
  unfolding edit_by_id
  edit_by_id-IsValid act edit = update_first-IsValid (has_id id) act edit v

  edit_named-IsValid :
      (act : TerminalTabState → Option TerminalTabState)
      → IsEdit? act
      → IsValid (edit_named w id act).0
  unfolding edit_named
  edit_named-IsValid act edit = guarded-IsValid (is_blank id) _ v (edit_by_id-IsValid act edit)

  edit_all-IsValid :
      (f : TerminalTabState → TerminalTabState)
      → IsEdit f
      → IsValid (edit_named w id (λ t. some (f t))).0
  edit_all-IsValid f edit = edit_named-IsValid (λ t. some (f t)) (always-IsEdit? f edit)

begin_run-IsValid : {w : SessionWorkspace} (run : Text) → IsValid w → IsValid (begin_run w run).0
unfolding begin_run
begin_run-IsValid {w} run v = elim (Option-cases (active w)) [
  | inl e ↦ rw (e, begin_run) v
  | inr (t, e) ↦
      rw (e, begin_run)
        (guarded-IsValid (is_blank run || is_running t.status) _ v
          (update_at-IsValid w.active_index _ (λ s. (refl, refl)) v))
]

select-IsValid : {w : SessionWorkspace} (i : ℤ) → IsValid w → IsValid (select w i).0
unfolding select
select-IsValid (negsuc n) v = v
select-IsValid {w} (pos i) v = elim (Option-cases (get_elem? w.tabs i)) [
  | inl e ↦ rw (e, or_refused) v
  | inr (t, e) ↦
      rw (e, or_refused)
        (set-IsValid i (λ s. record s { needs_attention = false }) (λ s. (refl, refl)) e
          (selected-IsValid i (lt-length_of_get_elem? w.tabs i e) v))
]

-- Every method keeps the invariant, as long as the counter of runtimes does not wrap.
pub perform-IsValid :
    (welcome : Text) {w : SessionWorkspace} (a : Action)
    → w.next_runtime_id + 1 < uint64_mod
    → IsValid w
    → IsValid (perform welcome w a)
unfolding perform select set_active_draft set_active_output append_active_output
    set_profile_selection append_output set_terminal_title set_custom_title set_working_directory
    set_attention set_bell_muted set_input_locked finish_run
perform-IsValid welcome (opening p) small v = open_profile-IsValid welcome p small v
perform-IsValid welcome (selecting i) small v = select-IsValid i v
perform-IsValid welcome (moving_active d) small v = move_active-IsValid d v
perform-IsValid welcome (moving id i) small v = move-IsValid id i v
perform-IsValid welcome (choosing_profile pid) small v = record {
  active_in_range = v.active_in_range;
  are_tabs = v.are_tabs;
  closed_bounded = v.closed_bounded;
}
perform-IsValid welcome {w} (drafting s) small v =
    update_at-IsValid w.active_index _ (λ t. (refl, refl)) v
perform-IsValid welcome {w} (printing s) small v =
    update_at-IsValid w.active_index _ (λ t. (refl, refl)) v
perform-IsValid welcome {w} (printing_more s) small v =
    update_at-IsValid w.active_index _ (λ t. (refl, refl)) v
perform-IsValid welcome (printing_to id s) small v =
    edit_by_id-IsValid id v _ (always-IsEdit? _ (λ t. (refl, refl)))
perform-IsValid welcome (titling id s) small v = edit_all-IsValid id v _ (λ t. (refl, refl))
perform-IsValid welcome (renaming id s) small v = edit_all-IsValid id v _ (λ t. (refl, refl))
perform-IsValid welcome (changing_directory id s) small v =
    guarded-IsValid (is_blank s) _ v (edit_all-IsValid id v _ (λ t. (refl, refl)))
perform-IsValid welcome (ringing id) small v = edit_named-IsValid id v ring ring-IsEdit?
perform-IsValid welcome (muting id b) small v = edit_all-IsValid id v (mute b) (λ t. (refl, refl))
perform-IsValid welcome (locking id b) small v = edit_all-IsValid id v _ (λ t. (refl, refl))
perform-IsValid welcome (pinning id b) small v = set_pinned-IsValid id b v
perform-IsValid welcome (beginning run) small v = begin_run-IsValid run v
perform-IsValid welcome (finishing run s) small v =
    guarded-IsValid (is_blank run) _ v
      (update_first-IsValid (owns_run run) _ (always-IsEdit? _ (λ t. (refl, refl))) v)
perform-IsValid welcome (closing i) small v = close-IsValid i v
perform-IsValid welcome reopening small v = reopen_last_closed-IsValid welcome small v
perform-IsValid welcome duplicating small v = duplicate_active-IsValid welcome small v
