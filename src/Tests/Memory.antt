-- ===== src/Tests/Memory.antt =====
-- A storage in memory: what is stored under a URI, the last write first.
use bergrebase.Base.{
  Bool-cases, Bytes, Error, List, Result, [], ap, err, false, has_prefix, if◌then◌else◌, inl, inr,
  int_eq, length, list_beq_iff, list_eq, nat_eq, not_found, ok, pos, sentinel, true, ℤ, ◌==◌, ◌∷◌,
  ◌≡◌,
}
use bergrebase.Storage.{Storage, Reads, WritesUnder}

abbrev pub Objects : Type 0
Objects = List (Bytes × Bytes)

abbrev pub not_found_at : Error
not_found_at = sentinel not_found

unfoldable pub find : Bytes → Objects → Result Bytes
find uri [] = err not_found_at
find uri ((u, body) ∷ w) = if u == uri then ok body else find uri w

unfoldable pub size_of : Result Bytes → Result ℤ
size_of (ok body) = ok (pos (length body))
size_of (err e) = err e

abbrev pub memory : Storage Objects
memory = record {
  get_object = λ uri w. (find uri w, w);
  put_object = λ uri body w. (ok tt, (uri, body) ∷ w);
  head_object = λ uri w. (size_of (find uri w), w);
}

-- The object at `uri` is `body`.
abbrev pub Holds : Bytes → Bytes → Objects → Type 0
Holds uri body w = find uri w ≡ ok body

module _ (uri body : Bytes) where
  pub memory-Reads : Reads (Holds uri body) memory
  memory-Reads = record {
    get_keeps = λ u. record { keeps = λ w h. h; returns = λ w a h e. tt };
    head_keeps = λ u. record { keeps = λ w h. h; returns = λ w a h e. tt };
  }

  put_elsewhere :
      (prefix u b : Bytes) (w : Objects)
      → has_prefix uri prefix ≡ false
      → has_prefix u prefix ≡ true
      → Holds uri body w
      → Holds uri body ((u, b) ∷ w)
  unfolding find
  put_elsewhere prefix u b w out at h = elim (Bool-cases (u == uri)) [
    | inl e ↦ absurd (same e)
    | inr e ↦ rw (e, find) h
  ]
    where
      same : (u == uri) ≡ true → ⊥
      same e = cc (ap (λ x. has_prefix x prefix) ((list_beq_iff u uri).0 e))

  pub memory-WritesUnder :
      (prefix : Bytes) → has_prefix uri prefix ≡ false → WritesUnder (Holds uri body) prefix memory
  memory-WritesUnder prefix out u b at = record {
    keeps = λ w h. put_elsewhere prefix u b w out at h;
    returns = λ w a h e. tt;
  }
