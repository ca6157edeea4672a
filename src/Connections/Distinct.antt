-- ===== src/Connections/Distinct.antt =====
-- The identities that `NormalizeConnections` gives and the connections that `Validate` accepts
-- (terminal/connection.go).
use nbterminal.Base.{
  ℕ, zero, suc, ◌+◌, ◌≡◌, ◌≢◌, ◌↔◌, ◌⊎◌, refl, sym, ap, ◌∙◌, true, false, none, List, [], ◌∷◌, ◌++◌,
  is_nil, length, length-append, Text, codes, text_eq, decimal, decimal-injective, contains,
  contains-first_unseen, first_unseen-candidate, first_unseen_free, arith,
}
use nbterminal.Base.Int.{pos, ◌≤ℤ◌}
use nbterminal.Connections.Defs.{
  Connection, local_type, ssh_type, dash, normalize, check, check_ssh, validate, or_text, candidate,
  base_id, unique_connection_id, normalize_loop, normalize_connections, default_local_connection,
}

append_cancel : (s t u : Text) → s ++ t ≡ s ++ u → t ≡ u
append_cancel [] t u h = h
append_cancel (c ∷ s) t u h = append_cancel s t u (cc)

base_shorter : (base : Text) (n : ℕ) → base ≢ candidate base (suc n)
base_shorter base n e =
    let k = ap length e ∙ length-append base (dash ∷ decimal (n + 2)) in omega arith

pub candidate-injective : (base : Text) (m n : ℕ) → candidate base m ≡ candidate base n → m ≡ n
candidate-injective base zero zero e = refl
candidate-injective base zero (suc n) e = absurd (base_shorter base n e)
candidate-injective base (suc m) zero e = absurd (base_shorter base m (sym e))
candidate-injective base (suc m) (suc n) e =
    let d = append_cancel base (dash ∷ decimal (m + 2)) (dash ∷ decimal (n + 2)) e in
    let k = decimal-injective (m + 2) (n + 2) (cc) in omega arith

module _ (to_lower : ℕ → ℕ) where
  -- The identity that is found is none of those seen: the loop ends.
  pub contains-unique_connection_id :
      (id : Text) (seen : List Text) → contains seen (unique_connection_id to_lower id seen) ≡ false
  unfolding unique_connection_id
  contains-unique_connection_id id seen =
      contains-first_unseen (candidate (base_id to_lower id))
        (candidate-injective (base_id to_lower id)) (suc (length seen)) 0 seen (omega arith)

  -- The base, or that with a number, and the base if it is free.
  abbrev pub IsNumbered : List Text → Text → Text → Type 0
  IsNumbered seen base id =
      ((k : ℕ) × (id ≡ candidate base k)) × (contains seen base ≡ false → id ≡ base)

  unique-IsNumbered :
      (id : Text) (seen : List Text)
      → IsNumbered seen (base_id to_lower id) (unique_connection_id to_lower id seen)
  unfolding unique_connection_id
  unique-IsNumbered id seen =
      let c = candidate (base_id to_lower id) in
      (
        first_unseen-candidate c (suc (length seen)) 0 seen,
        first_unseen_free c (suc (length seen)) 0 seen,
      )

  module _ {K : Type 0} where
    -- No identity is among those seen or those before it.
    abbrev pub AreDistinct : List Text → List (Connection K) → Type 0
    AreDistinct seen [] = Unit
    AreDistinct seen (c ∷ cs) = (contains seen c.id ≡ false) × AreDistinct (c.id ∷ seen) cs

    loop-AreDistinct :
        (conns : List (Connection K)) (seen : List Text) (n : ℕ)
        → AreDistinct seen (normalize_loop to_lower seen n conns)
    unfolding normalize_loop
    loop-AreDistinct [] seen n = tt
    loop-AreDistinct (conn ∷ conns) seen n = (
      contains-unique_connection_id
          (or_text to_lower (normalize to_lower conn).id (codes "connection-" ++ decimal (n + 1)))
          seen,
      loop-AreDistinct conns _ (n + 1),
    )

    -- The identity that the connection asks for: its own or that of its name, in safe runes.
    abbrev pub wanted : ℕ → Connection K → Text
    wanted n conn =
        base_id to_lower
          (or_text to_lower (normalize to_lower conn).id (codes "connection-" ++ decimal (n + 1)))

    -- One by one, the connections that come out are the normalized ones but for the identity, which is
    -- the one asked for, with a number behind it if that is taken.
    abbrev pub AreNormalized : List Text → ℕ → List (Connection K) → List (Connection K) → Type 0
    AreNormalized seen n [] [] = Unit
    AreNormalized seen n [] (c ∷ cs) = ⊥
    AreNormalized seen n (conn ∷ conns) [] = ⊥
    AreNormalized seen n (conn ∷ conns) (c ∷ cs) =
        (c ≡ record (normalize to_lower conn) { id = c.id })
        × IsNumbered seen (wanted n conn) c.id
        × AreNormalized (c.id ∷ seen) (n + 1) conns cs

    -- Of no connections there is the local one.
    abbrev pub IsNormalization : List (Connection K) → List (Connection K) → Type 0
    IsNormalization [] cs = cs ≡ default_local_connection ∷ []
    IsNormalization (conn ∷ conns) cs = AreNormalized [] 0 (conn ∷ conns) cs

    loop-AreNormalized :
        (conns : List (Connection K)) (seen : List Text) (n : ℕ)
        → AreNormalized seen n conns (normalize_loop to_lower seen n conns)
    unfolding normalize_loop
    loop-AreNormalized [] seen n = tt
    loop-AreNormalized (conn ∷ conns) seen n = (
      refl,
      unique-IsNumbered
          (or_text to_lower (normalize to_lower conn).id (codes "connection-" ++ decimal (n + 1)))
          seen,
      loop-AreNormalized conns _ (n + 1),
    )

    -- The identities that come out are different from each other, for every input. Each connection
    -- keeps its place and is normalized; its identity is the one it asks for, in safe runes, where that
    -- is free, and otherwise that with a number behind it. Of no connections there is the local one.
    pub normalize_connections-AreDistinct :
        (conns : List (Connection K))
        → AreDistinct [] (normalize_connections to_lower conns)
          × IsNormalization conns (normalize_connections to_lower conns)
    unfolding normalize_connections contains
    normalize_connections-AreDistinct [] = ((refl, tt), refl)
    normalize_connections-AreDistinct (conn ∷ conns) =
        (loop-AreDistinct (conn ∷ conns) [] 0, loop-AreNormalized (conn ∷ conns) [] 0)

    abbrev pub IsSecret : Connection K → Type 0
    IsSecret c = (is_nil c.password ≡ false) ⊎ (is_nil c.private_key ≡ false)

    abbrev pub IsReachable : Connection K → Type 0
    IsReachable c =
        (is_nil c.host ≡ false)
        × (pos 1 ≤ℤ c.port)
        × (c.port ≤ℤ pos 65535)
        × (is_nil c.username ≡ false)
        × IsSecret c

    -- A connection with an identity and a name that is local, or is an SSH connection with a host, a
    -- port of TCP, a user and a secret.
    abbrev pub IsExecutable : Connection K → Type 0
    IsExecutable c =
        (is_nil c.id ≡ false)
        × (is_nil c.name ≡ false)
        × ((text_eq c.type local_type ≡ true)
            ⊎ ((text_eq c.type local_type ≡ false)
                × (text_eq c.type ssh_type ≡ true)
                × IsReachable c))

    check_ssh_iff : (c : Connection K) → (check_ssh to_lower c ≡ none) ↔ IsReachable c
    check_ssh_iff c = ground arith

    check_iff : (c : Connection K) → (check to_lower c ≡ none) ↔ IsExecutable c
    check_iff c = ground (arith, check_ssh_iff c)

    -- `Validate` accepts exactly the connections that can be executed once they are normalized.
    pub validate_iff :
        (c : Connection K) → (validate to_lower c ≡ none) ↔ IsExecutable (normalize to_lower c)
    unfolding validate
    validate_iff c = check_iff (normalize to_lower c)
