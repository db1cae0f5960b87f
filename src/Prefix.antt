-- ===== src/Prefix.antt =====
-- internal/rewrite/prefix.go: the strict prefix substitution.
pub mod Laws
use bergrebase.Base.{Bytes, Bool, Option, none, some, ◌++◌, cut_prefix, has_prefix}

pub record PrefixMapping : Type 0 where
  pub source : Bytes
  pub target : Bytes

-- `m.Apply(p)`
unfoldable pub apply : PrefixMapping → Bytes → Bytes
apply m p = elim (cut_prefix p m.source) [ none ↦ p | some rest ↦ m.target ++ rest ]

-- `m.Matches(p)`
unfoldable pub matches : PrefixMapping → Bytes → Bool
matches m p = has_prefix p m.source
