-- ===== src/Storage.antt =====
-- internal/rewrite/walker.go, `Storage`: the storage that the rewriter reads and writes, as calls
-- on an abstract world; and internal/rewrite/put.go.
pub mod Put
use bergrebase.Base.{
  Action, Bytes, Keeps, [], context, errorf, fail, has_prefix, if◌then◌else◌, int_eq, integer,
  length, list_eq, nat_eq, number, pos, pure, text, true, ℤ, ◌==◌, ◌>>=◌, ◌>>◌, ◌∷◌, ◌≡◌,
}

pub record Storage (W : Type 0) : Type 0 where
  pub get_object : Bytes → Action W Bytes
  pub put_object : Bytes → Bytes → Action W (Unit {0})
  pub head_object : Bytes → Action W ℤ

-- the comparison that ends `putAndVerify`
unfoldable pub check_size : {W : Type 0} → Bytes → Bytes → ℤ → Action W (Unit {0})
check_size uri body size =
    if size == pos (length body)
    then pure tt
    else fail (
        errorf "verify %s: on-disk size %d != written size %d (storage truncated?)"
          (text uri ∷ integer size ∷ number (length body) ∷ []))

-- `putAndVerify`
unfoldable pub put_and_verify : {W : Type 0} → Storage W → Bytes → Bytes → Action W (Unit {0})
unfolding check_size
put_and_verify target uri body = do
  context "put %s: %w" (text uri ∷ []) (target.put_object uri body)
  size ← context "verify %s after put: %w" (text uri ∷ []) (target.head_object uri)
  check_size uri body size

-- Reads leave `P` alone.
pub record Reads {W : Type 0} (P : W → Type 0) (s : Storage W) : Type 0 where
  pub get_keeps : (uri : Bytes) → Keeps P (s.get_object uri)
  pub head_keeps : (uri : Bytes) → Keeps P (s.head_object uri)

-- Writes at the URIs that begin with `prefix` leave `P` alone.
abbrev pub WritesUnder : {W : Type 0} → (W → Type 0) → Bytes → Storage W → Type 0
WritesUnder P prefix s =
    (uri body : Bytes) → has_prefix uri prefix ≡ true → Keeps P (s.put_object uri body)
