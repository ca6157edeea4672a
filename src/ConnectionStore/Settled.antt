-- ===== src/ConnectionStore/Settled.antt =====
-- Normalizing the saved connections (guis/guis.go) once is enough.
use nbterminal.Base.{
  ℕ, zero, suc, ◌+◌, ◌≡◌, refl, sym, ap, ◌∙◌, Bool, true, false, ◌&&◌, List, [], ◌∷◌, ◌++◌, is_nil,
  length, arith, Text, codes, trim_space, trim_space_idem, trim_space_front, trim_space_fixed,
  decimal, decimal_end, contains, first_unseen, append_assoc, if◌then◌else◌, if-elim, ◌==◌,
  is_space,
}
use nbterminal.Profile.{ConnectionType, ssh, local, other, ConnectionProfile}
use nbterminal.Connections.Defs.{candidate, dash}
use nbterminal.ConnectionStore.Normalize.{
  Texts, or_default, base_profile_id, generated_id, or_ssh, is_ssh, unique_profile_id,
  with_defaults, normalize_from, normalize_profiles,
}
use nbterminal.ConnectionStore.Identities.{contains-unique_profile_id}

-- A text that is not empty and that trimming leaves as it is.
abbrev IsTrimmed : Text → Type 0
IsTrimmed s = (is_nil s ≡ false) × (trim_space s ≡ s)

conn_trimmed : trim_space (codes "conn") ≡ codes "conn"
unfolding trim_space is_space
conn_trimmed = refl

base-IsTrimmed : (id : Text) → IsTrimmed (base_profile_id id)
base-IsTrimmed id =
    if-elim IsTrimmed (is_nil (trim_space id)) (codes "conn") (trim_space id)
      (λ e. (refl, conn_trimmed)) (λ e. (e, trim_space_idem id))

candidate-IsTrimmed : (base : Text) (n : ℕ) → IsTrimmed base → IsTrimmed (candidate base n)
candidate-IsTrimmed base zero h = h
candidate-IsTrimmed [] (suc n) (h, t) = cc
candidate-IsTrimmed (c ∷ base) (suc n) (h, t) =
    let (s, d, e, f) = decimal_end (n + 2) in
    (
      refl,
      trim_space_fixed c d (base ++ dash ∷ decimal (n + 2)) ((c ∷ base) ++ dash ∷ s)
          (trim_space_front (c ∷ base) c base t) f
          (ap (λ u. c ∷ base ++ dash ∷ u) e ∙ sym (append_assoc (c ∷ base) (dash ∷ s) (d ∷ []))),
    )

first_unseen-IsTrimmed :
    (f : ℕ → Text) (fuel n : ℕ) (seen : List Text)
    → ((k : ℕ) → IsTrimmed (f k))
    → IsTrimmed (first_unseen f fuel n seen)
unfolding first_unseen
first_unseen-IsTrimmed f zero n seen h = h n
first_unseen-IsTrimmed f (suc fuel) n seen h =
    if-elim IsTrimmed (contains seen (f n)) (first_unseen f fuel (suc n) seen) (f n)
      (λ e. first_unseen-IsTrimmed f fuel (suc n) seen h) (λ e. h n)

unique-IsTrimmed : (id : Text) (seen : List Text) → IsTrimmed (unique_profile_id id seen)
unfolding unique_profile_id
unique-IsTrimmed id seen =
    first_unseen-IsTrimmed (candidate (base_profile_id id)) (suc (length seen)) 0 seen
      (λ k. candidate-IsTrimmed (base_profile_id id) k (base-IsTrimmed id))

base_kept : (id : Text) → is_nil id ≡ false → trim_space id ≡ id → base_profile_id id ≡ id
base_kept id n t = ap (λ s. or_default s (codes "conn")) t ∙ rw n refl

-- A trimmed identity that is not taken is kept.
unique_kept :
    (id : Text) (seen : List Text)
    → IsTrimmed id
    → contains seen id ≡ false
    → unique_profile_id id seen ≡ id
unfolding unique_profile_id first_unseen
unique_kept id seen (n, t) c =
    ap (λ b. first_unseen (candidate b) (suc (length seen)) 0 seen) {x = base_profile_id id}
      {y = id} (base_kept id n t)
    ∙ rw c refl

or_default_kept : (s fallback : Text) → is_nil s ≡ false → or_default s fallback ≡ s
or_default_kept s fallback h = rw h refl

or_default_idem :
    (s fallback : Text) → or_default (or_default s fallback) fallback ≡ or_default s fallback
or_default_idem [] [] = refl
or_default_idem [] (c ∷ t) = refl
or_default_idem (c ∷ s) t = refl

or_ssh_idem : (t : ConnectionType) → or_ssh (or_ssh t) ≡ or_ssh t
or_ssh_idem ssh = refl
or_ssh_idem local = refl
or_ssh_idem (other []) = refl
or_ssh_idem (other (c ∷ s)) = refl

abbrev port_of : Bool → ℕ → ℕ
port_of is_ssh port = if is_ssh && port == 0 then 22 else port

port_idem : (b : Bool) (port : ℕ) → port_of b (port_of b port) ≡ port_of b port
port_idem true port = ground arith
port_idem false port = refl

defaults_idem :
    (texts : Texts) (clock later : ℕ → ℕ) (p : ConnectionProfile) (id : Text)
    → record (with_defaults texts later (record (with_defaults texts clock p) { id = id })) {
      id = id;
    }
      ≡ record (with_defaults texts clock p) { id = id }
defaults_idem texts clock later p id =
    ap
      (λ n. record (with_defaults texts clock p) {
        id = id;
        name = n;
        group = or_default (or_default p.group texts.default_group) texts.default_group;
        type = or_ssh (or_ssh p.type);
        port = port_of (is_ssh (or_ssh (or_ssh p.type))) (port_of (is_ssh (or_ssh p.type)) p.port);
      })
      (or_default_idem p.name texts.new_connection)
    ∙ ap
        (λ g. record (with_defaults texts clock p) {
          id = id;
          group = g;
          type = or_ssh (or_ssh p.type);
          port =
              port_of (is_ssh (or_ssh (or_ssh p.type))) (port_of (is_ssh (or_ssh p.type)) p.port);
        })
        (or_default_idem p.group texts.default_group)
    ∙ ap
        (λ t. record (with_defaults texts clock p) {
          id = id;
          type = t;
          port = port_of (is_ssh t) (port_of (is_ssh (or_ssh p.type)) p.port);
        })
        (or_ssh_idem p.type)
    ∙ ap (λ n. record (with_defaults texts clock p) { id = id; port = n })
        (port_idem (is_ssh (or_ssh p.type)) p.port)

module _ (texts : Texts) (clock later : ℕ → ℕ) where
  normalize_from_idem :
      (rows : List ConnectionProfile) (i : ℕ) (seen : List Text)
      → normalize_from texts later i seen (normalize_from texts clock i seen rows)
        ≡ normalize_from texts clock i seen rows
  unfolding normalize_from
  normalize_from_idem [] i seen = refl
  normalize_from_idem (p ∷ rows) i seen =
      let given = or_default p.id (generated_id (clock i) i) in
      let id = unique_profile_id given seen in
      let (n, t) = unique-IsTrimmed given seen in
      let kept : unique_profile_id (or_default id (generated_id (later i) i)) seen ≡ id =
        ap (λ s. unique_profile_id s seen) (or_default_kept id (generated_id (later i) i) n)
        ∙ unique_kept id seen (n, t) (contains-unique_profile_id given seen) in
      ap
        (λ s.
          record (with_defaults texts later (record (with_defaults texts clock p) { id = id })) {
            id = s;
          }
          ∷ normalize_from texts later (i + 1) (s ∷ seen)
              (normalize_from texts clock (i + 1) (id ∷ seen) rows))
        kept
      ∙ ap
          (λ q.
            q
            ∷ normalize_from texts later (i + 1) (id ∷ seen)
                (normalize_from texts clock (i + 1) (id ∷ seen) rows))
          (defaults_idem texts clock later p id)
      ∙ ap (λ l. record (with_defaults texts clock p) { id = id } ∷ l)
          (normalize_from_idem rows (i + 1) (id ∷ seen))

  -- Normalized profiles are not changed by another normalization, at whatever time.
  pub normalize_profiles_idem :
      (rows : List ConnectionProfile)
      → normalize_profiles texts later (normalize_profiles texts clock rows)
        ≡ normalize_profiles texts clock rows
  unfolding normalize_profiles
  normalize_profiles_idem rows = normalize_from_idem rows 0 []
