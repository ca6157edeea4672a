-- ===== src/Workspace/Closing.antt =====
-- `Close`, `ReopenLastClosed` and `Open` of guis/session_workspace.go, together.
use nbterminal.Base.{
  ℕ, zero, suc, ◌+◌, ◌-◌, ◌%◌, ◌≤◌, ◌<◌, ◌≡◌, refl, ◌≢◌, ◌↔◌, inl, inr, Bool, true, false, Option,
  none, some, List, [], ◌∷◌, ◌++◌, arith, if◌then◌else◌, Bool-cases, some_inj, All, length,
  get_elem?, erase_idx, drop, last?, drop_last, Text, lt-length_of_get_elem?, is_blank, ltb, leb,
  ◌||◌, ◌&&◌, length-append, last?-append_end, drop-append_end, get_elem?-append_end,
  get_elem?-erase_idx_before, get_elem?-erase_idx_after, length-erase_idx, text_eq, text_eq_iff,
}
use nbterminal.Base.Int.{ℤ, pos, negsuc}
use nbterminal.Profile.{ConnectionProfile}
use nbterminal.Workspace.Tabs.{
  TerminalTabState, SessionWorkspace, idle, running, active, tab_at, at_index, open_profile,
  fresh_tab, uint64_mod, next_instance,
}
use nbterminal.Workspace.ById.{is_running}
use nbterminal.Workspace.Lifecycle.{
  closed_limit, remember_closed, active_after_close, close_found, close, reopen_last_closed,
  keep_if_refused,
}
use nbterminal.Workspace.Invariant.{IsValid}

-- What makes a tab closable.
abbrev pub IsClosable : TerminalTabState → Type 0
IsClosable t = (t.status ≢ running) × (t.pinned ≡ false)

close_found-succeeds :
    (w : SessionWorkspace) (i : ℕ) (o : Option TerminalTabState)
    → ((close_found w i o).1 ≡ true) ↔ ((t : TerminalTabState) × (o ≡ some t) × IsClosable t)
unfolding close_found
close_found-succeeds w i none = (λ h. cc, λ (t, e, _). cc)
close_found-succeeds w i (some t) = (
  λ h. (t, refl, (ground arith, ground arith)),
  λ (u, e, (s, p)). ground (arith, some_inj e, s, p),
)

-- `Close` succeeds exactly for the index of a tab that neither runs nor is pinned.
pub close-succeeds_iff :
    (w : SessionWorkspace) (i : ℤ)
    → ((close w i).1 ≡ true) ↔ ((t : TerminalTabState) × (tab_at w i ≡ some t) × IsClosable t)
unfolding close
close-succeeds_iff w (negsuc n) = (λ h. cc, λ (t, e, _). cc)
close-succeeds_iff w (pos i) = close_found-succeeds w i (get_elem? w.tabs i)

-- The newest profile of the history is the one remembered last, and the others are at most
-- twenty less one.
last?-remember_closed :
    (ps : List ConnectionProfile) (p : ConnectionProfile) → last? (remember_closed ps p) ≡ some p
unfolding remember_closed
last?-remember_closed ps p =
    let n = length (ps ++ p ∷ []) - closed_limit in
    let e = drop-append_end n ps p (omega (arith, length-append ps (p ∷ []))) in
    elim (Bool-cases (ltb closed_limit (length (ps ++ p ∷ [])))) [
      | inl long ↦ rw (long, e) (last?-append_end (drop n ps) p)
      | inr short ↦ rw short (last?-append_end ps p)
    ]

-- The tab that a successful `Open` made.
pub open_profile-active :
    (welcome : Text) (w : SessionWorkspace) (p : ConnectionProfile)
    → is_blank p.id ≡ false
    → ((open_profile welcome w p).2 ≡ true)
      × (active (open_profile welcome w p).0
          ≡ some (
              fresh_tab welcome p
                (next_instance p.id w.tabs 1)
                ((w.next_runtime_id + 1) % uint64_mod)))
unfolding open_profile active
open_profile-active welcome w p e = rw e (refl, get_elem?-append_end w.tabs _)

-- What a successful `Close` leaves.
pub close-outcome :
    (w : SessionWorkspace) (i : ℕ) {t : TerminalTabState}
    → get_elem? w.tabs i ≡ some t
    → (close w (pos i)).1 ≡ true
    → (close w (pos i)).0 ≡ record w {
      tabs = erase_idx w.tabs i;
      closed_profiles = remember_closed w.closed_profiles t.profile;
      active_index = active_after_close i (length (erase_idx w.tabs i)) w.active_index;
    }
unfolding close close_found
close-outcome w i {t} e h = elim (Bool-cases (is_running t.status || t.pinned)) [
  | inl refused ↦ cc (rw (e, refused, close_found) at h)
  | inr closed ↦ rw (e, closed, close_found)
]

keep_if_refused_opened :
    (p : ConnectionProfile) (r : SessionWorkspace × ℤ × Bool) → r.2 ≡ true → keep_if_refused p r ≡ r
keep_if_refused_opened p (w, i, true) e = refl
keep_if_refused_opened p (w, i, false) e = cc

-- The tab that `ReopenLastClosed` opens.
reopened :
    (welcome : Text) (w : SessionWorkspace) {p : ConnectionProfile}
    → last? w.closed_profiles ≡ some p
    → is_blank p.id ≡ false
    → ((reopen_last_closed welcome w).2 ≡ true)
      × (active (reopen_last_closed welcome w).0
          ≡ some (
              fresh_tab welcome p
                (next_instance p.id w.tabs 1)
                ((w.next_runtime_id + 1) % uint64_mod)))
unfolding reopen_last_closed
reopened welcome w {p} e named =
    let w' : SessionWorkspace = record w { closed_profiles = drop_last w.closed_profiles } in
    let opened = open_profile-active welcome w' p named in
    rw (e, reopen_last_closed)
      (rw (keep_if_refused_opened p (open_profile welcome w' p) opened.0) opened)

-- After a successful `Close` of a tab whose profile has an identity, `ReopenLastClosed` succeeds,
-- and the active tab is a fresh runtime of the closed tab's profile: no draft, output, title,
-- directory, flag or run of the closed tab is kept.
pub reopen_last_closed-close :
    (welcome : Text) (w : SessionWorkspace) (i : ℕ) {t : TerminalTabState}
    → get_elem? w.tabs i ≡ some t
    → (close w (pos i)).1 ≡ true
    → is_blank t.profile.id ≡ false
    → ((reopen_last_closed welcome (close w (pos i)).0).2 ≡ true)
      × (active (reopen_last_closed welcome (close w (pos i)).0).0
          ≡ some (
              fresh_tab welcome t.profile
                (next_instance t.profile.id (erase_idx w.tabs i) 1)
                ((w.next_runtime_id + 1) % uint64_mod)))
reopen_last_closed-close welcome w i {t} e h named =
    rw (close-outcome w i e h)
      (reopened welcome _ (last?-remember_closed w.closed_profiles t.profile) named)

-- The index of another tab, after one is gone, is that of the same tab.
shifted_index :
    (ts : List TerminalTabState) (i a : ℕ)
    → i ≢ a
    → a < length ts
    → i < length ts
    → at_index (erase_idx ts i) (active_after_close i (length (erase_idx ts i)) (pos a))
      ≡ get_elem? ts a
unfolding active_after_close
shifted_index ts i zero ne h k =
    ground (arith, length-erase_idx ts i k, get_elem?-erase_idx_after ts i 0)
shifted_index ts i (suc a) ne h k = ground (
  arith,
  length-erase_idx ts i k,
  get_elem?-erase_idx_before ts i a,
  get_elem?-erase_idx_after ts i (suc a),
)

-- Closing another tab than the active one leaves the same tab active.
pub active-close :
    (w : SessionWorkspace) (i a : ℕ)
    → w.active_index ≡ pos a
    → i ≢ a
    → IsValid w
    → (close w (pos i)).1 ≡ true
    → active (close w (pos i)).0 ≡ active w
unfolding active
active-close w i a e ne v h =
    let (t, at, _) = (close-succeeds_iff w (pos i)).0 h in
    rw (close-outcome w i at h, e)
      (shifted_index w.tabs i a ne (rw e at v.active_in_range) (lt-length_of_get_elem? w.tabs i at))

-- The round of the loop of `Open` for one tab.
abbrev raised : Text → TerminalTabState → ℕ → ℕ
raised pid t n =
    if text_eq t.profile_id pid && leb n t.instance_number then t.instance_number + 1 else n

-- The number of a new tab is larger than that of every tab of its profile.
next_instance-le : (pid : Text) (ts : List TerminalTabState) (n : ℕ) → n ≤ next_instance pid ts n
unfolding next_instance
next_instance-le pid [] n = omega arith
next_instance-le pid (t ∷ ts) n = ground (arith, next_instance-le pid ts (raised pid t n))

next_instance-fresh :
    (pid : Text) (ts : List TerminalTabState) (n : ℕ)
    → All (λ u. u.profile_id ≡ pid → u.instance_number < next_instance pid ts n) ts
unfolding next_instance
next_instance-fresh pid [] n = tt
next_instance-fresh pid (t ∷ ts) n = (
  λ e. ground (arith, next_instance-le pid ts (raised pid t n), text_eq_iff t.profile_id pid),
  next_instance-fresh pid ts (raised pid t n),
)

-- A profile with an identity is opened: its tab comes after all the older ones, which stay as they
-- were, it is the active tab, and its index is the result; it has the profile as it was given, is idle,
-- and its instance number is above that of every older tab of the same profile. The history of closed
-- profiles stays as it was.
pub open_profile_lem :
    (welcome : Text) (w : SessionWorkspace) (p : ConnectionProfile)
    → is_blank p.id ≡ false
    → let o = open_profile welcome w p in
      (t : TerminalTabState) × (o.0.tabs ≡ w.tabs ++ t ∷ [])
      × (o.0.active_index ≡ pos (length w.tabs))
      × (o.1 ≡ pos (length w.tabs))
      × (o.2 ≡ true)
      × (active o.0 ≡ some t)
      × (o.0.closed_profiles ≡ w.closed_profiles)
      × (t.profile ≡ p)
      × (t.status ≡ idle)
      × All (λ u. u.profile_id ≡ t.profile_id → u.instance_number < t.instance_number) w.tabs
unfolding open_profile active
open_profile_lem welcome w p e = rw e (
  _,
  refl,
  refl,
  refl,
  refl,
  get_elem?-append_end w.tabs _,
  refl,
  refl,
  refl,
  next_instance-fresh p.id w.tabs 1,
)
