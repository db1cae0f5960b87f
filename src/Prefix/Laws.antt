-- ===== src/Prefix/Laws.antt =====
-- What the substitution does to a path, and when it may be repeated.
use bergrebase.Base.{
  Bytes, ◌≡◌, ◌≢◌, inl, inr, true, false, ◌++◌, arith, has_prefix, Bool-cases, cut_prefix-append,
  append-cut_prefix, has_prefix-append, has_prefix_rest, cut_prefix-eq-none, has_prefix_either,
}
use bergrebase.Prefix.{PrefixMapping, apply, matches}

-- Neither prefix lies under the other.
pub record NotNested (m : PrefixMapping) : Type 0 where
  pub target_outside : has_prefix m.target m.source ≡ false
  pub source_outside : has_prefix m.source m.target ≡ false

-- The mapping that leads back.
abbrev pub inverse : PrefixMapping → PrefixMapping
inverse m = record { source = m.target; target = m.source }

-- A path under the source prefix is moved under the target prefix.
pub apply-append :
    (m : PrefixMapping) (rest : Bytes) → apply m (m.source ++ rest) ≡ m.target ++ rest
unfolding apply
apply-append m rest = rw (cut_prefix-append m.source rest, apply)

module _ (m : PrefixMapping) where
  pub matches-append : (rest : Bytes) → matches m (m.source ++ rest) ≡ true
  unfolding matches
  matches-append rest = has_prefix-append m.source rest

  pub matches_rest : (p : Bytes) → matches m p ≡ true → (rest : Bytes) × (p ≡ m.source ++ rest)
  unfolding matches
  matches_rest p h =
      let (rest, e) = has_prefix_rest p m.source h in (rest, append-cut_prefix p m.source rest e)

  -- A path outside the source prefix is returned as it is.
  pub apply_outside : (p : Bytes) → matches m p ≡ false → apply m p ≡ p
  unfolding apply matches
  apply_outside p h = rw (cut_prefix-eq-none p m.source h, apply)

  -- A path that is changed lies under the source prefix.
  pub matches-of_apply_ne : (p : Bytes) → apply m p ≢ p → matches m p ≡ true
  matches-of_apply_ne p h = elim (Bool-cases (matches m p)) [
    | inl e ↦ e
    | inr e ↦ absurd (h (apply_outside p e))
  ]

  -- What a path under the source prefix is changed to lies under the target prefix.
  pub has_prefix-apply : (p : Bytes) → matches m p ≡ true → has_prefix (apply m p) m.target ≡ true
  has_prefix-apply p h =
      let (rest, e) = matches_rest p h in rw e (rw apply-append (has_prefix-append m.target rest))

  -- A path under the target prefix is out of the scope of the mapping.
  pub matches-target : NotNested m → (rest : Bytes) → matches m (m.target ++ rest) ≡ false
  unfolding matches
  matches-target n rest = elim (Bool-cases (has_prefix (m.target ++ rest) m.source)) [
    | inr e ↦ e
    | inl e ↦ absurd (
        ground
          (arith, has_prefix_either m.target m.source rest e, n.target_outside, n.source_outside))
  ]

  -- With prefixes that are not nested, no path that was substituted is in scope any more.
  pub matches-apply : NotNested m → (p : Bytes) → matches m (apply m p) ≡ false
  matches-apply n p = elim (Bool-cases (matches m p)) [
    | inr e ↦ rw (apply_outside p e) e
    | inl e ↦ let (rest, q) = matches_rest p e in rw q (rw apply-append (matches-target n rest))
  ]

  -- With prefixes that are not nested, a second substitution changes nothing.
  pub apply-apply : NotNested m → (p : Bytes) → apply m (apply m p) ≡ apply m p
  apply-apply n p = apply_outside (apply m p) (matches-apply n p)

  -- On a path in scope, the mapping that leads back undoes the substitution.
  pub apply-inverse : (p : Bytes) → matches m p ≡ true → apply (inverse m) (apply m p) ≡ p
  apply-inverse p h =
      let (rest, q) = matches_rest p h in rw q (rw apply-append (apply-append (inverse m) rest))
