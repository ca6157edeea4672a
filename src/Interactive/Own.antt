-- ===== src/Interactive/Own.antt =====
-- The runtimes of guis/interactive_runtime.go keep the contexts of their sessions through every call.
use nbterminal.Base.{
  ◌≡◌, sym, ap, ◌∙◌, subst, inl, inr, Option, none, some, is_some, is_nil, Text, trim_space, lookup,
  delete, insert, lookup-delete, lookup-delete_other, lookup-insert, lookup-insert_other,
  Bool-cases, some_inj,
}
use nbterminal.Interactive.Defs.{
  Transports, Runtime, Registry, start, replace_begin, replace_end, swap, close, release, start_new,
  close_found, release_found,
}
use nbterminal.Interactive.Owned.{text-cases, AreOwn}

module _ (kit : Transports) (context : kit.Session → kit.Cancel) where
  abbrev pub HasOwn : Runtime kit → Type 0
  HasOwn runtime = runtime.cancel ≡ context runtime.session

  AreOwn-delete :
      (r : Registry kit) (k : Text) → AreOwn kit context r → AreOwn kit context (delete k r)
  AreOwn-delete r k h key runtime e = elim (text-cases key k) [
    | inl p ↦ let z = sym (lookup-delete k r) ∙ (ap (λ j. lookup j (delete k r)) (sym p) ∙ e) in cc
    | inr p ↦ h key runtime (sym (lookup-delete_other k key r p) ∙ e)
  ]

  AreOwn-insert :
      (r : Registry kit) (k : Text) (new : Runtime kit)
      → HasOwn new
      → AreOwn kit context r
      → AreOwn kit context (insert k new r)
  AreOwn-insert r k new o h key runtime e = elim (text-cases key k) [
    | inl p ↦
        subst HasOwn
          (some_inj
            (sym (lookup-insert k new r) ∙ (ap (λ j. lookup j (insert k new r)) (sym p) ∙ e)))
          o
    | inr p ↦ h key runtime (sym (lookup-insert_other k key new r p) ∙ e)
  ]

  pub started-AreOwn :
      (r : Registry kit) (id : Text) (new : Runtime kit) (error : Option kit.StartError)
      → HasOwn new
      → AreOwn kit context r
      → AreOwn kit context (start kit r id (some new) error).0
  unfolding start
  started-AreOwn r id new error o h = elim (Bool-cases (is_nil (trim_space id))) [
    | inl e ↦ rw e h
    | inr e ↦ elim (Bool-cases (is_some (lookup (trim_space id) r))) [
      | inl f ↦ rw (e, f) h
      | inr f ↦ rw (e, f) (go error)
    ]
  ]
    where
      go :
          (error : Option kit.StartError)
          → AreOwn kit context (start_new kit r (trim_space id) new error).0
      go (some x) = h
      go none = AreOwn-insert r (trim_space id) new o h

  pub replace_end-AreOwn :
      (r : Registry kit) (id : Text) (previous new : Runtime kit) (error : Option kit.StartError)
      → HasOwn new
      → AreOwn kit context r
      → AreOwn kit context (replace_end kit r id previous new error).0
  unfolding replace_end
  replace_end-AreOwn r id previous new (some e) o h = h
  replace_end-AreOwn r id previous new none o h = go (lookup (trim_space id) r)
    where
      go :
          (current : Option (Runtime kit))
          → AreOwn kit context (swap kit r (trim_space id) previous new current).0
      go none = h
      go (some current) = elim (Bool-cases (kit.same current.session previous.session)) [
        | inl f ↦ rw f (AreOwn-insert r (trim_space id) new o h)
        | inr f ↦ rw f h
      ]

  pub close-AreOwn :
      (r : Registry kit) (id : Text) → AreOwn kit context r → AreOwn kit context (close kit r id).0
  unfolding close
  close-AreOwn r id h = go (lookup (trim_space id) r)
    where
      go : (o : Option (Runtime kit)) → AreOwn kit context (close_found kit r (trim_space id) o).0
      go none = h
      go (some x) = AreOwn-delete r (trim_space id) h

  pub release-AreOwn :
      (r : Registry kit) (id : Text) (o : Option kit.Session)
      → AreOwn kit context r
      → AreOwn kit context (release kit r id o).0
  unfolding release
  release-AreOwn r id none h = h
  release-AreOwn r id (some s) h = go (lookup (trim_space id) r)
    where
      go :
          (o : Option (Runtime kit))
          → AreOwn kit context (release_found kit r (trim_space id) s o).0
      go none = h
      go (some x) = elim (Bool-cases (kit.same x.session s)) [
        | inl f ↦ rw f (AreOwn-delete r (trim_space id) h)
        | inr f ↦ rw f h
      ]

  pub replace_begin-HasOwn :
      (r : Registry kit) (id : Text) (new : Runtime kit) {previous : Runtime kit}
      → AreOwn kit context r
      → replace_begin kit r id (some new) ≡ some previous
      → HasOwn previous
  unfolding replace_begin
  replace_begin-HasOwn r id new {previous} h e = elim (Bool-cases (is_nil (trim_space id))) [
    | inl n ↦ let z = rw n at e in cc
    | inr n ↦ h (trim_space id) previous (rw n at e)
  ]
