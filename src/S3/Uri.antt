-- ===== src/S3/Uri.antt =====
-- `ParseS3URI` and the cap of `GetObject`.
use Prim.Native.Nat.{◌-◌, ◌^◌}
use bergrebase.Base.{
  Bytes, Lacks, Option-cases, [], append-cut, append-cut_prefix, arith, cut, cut-append, cut_prefix,
  cut_prefix-append, inl, inr, int_eq, length, list_beq_iff, list_eq, nat_eq, negsuc, none, ok, pos,
  refl, suc, zero, ℕ, ℤ, ◌++◌, ◌<◌, ◌↔◌, ◌∷◌, ◌≡◌, ◌≢◌, ◌≤◌,
}
use bergrebase.S3.{
  scheme, check_parts, cut_key, parse_s3_uri, Body, take, read_limit, read_body, add_int64,
}

-- `strings.Cut` at the slash, with a key that is not empty.
cut_key-append : (b k : Bytes) → Lacks 47 b → cut_key (b ++ 47 ∷ k) ≡ (b, k)
unfolding cut_key
cut_key-append b k l = rw (cut-append 47 b k l, cut_key)

append-cut_key :
    (rest b k : Bytes) → cut_key rest ≡ (b, k) → k ≢ [] → (rest ≡ b ++ 47 ∷ k) × Lacks 47 b
unfolding cut_key
append-cut_key rest b k h ne = elim (Option-cases (cut rest (47 ∷ []))) [
  | inl e ↦ ground arith
  | inr ((b', k'), e) ↦ ground (arith, append-cut 47 rest b' k')
]

check_parts-eq-ok :
    (uri b k b' k' : Bytes)
    → (check_parts uri b k ≡ ok (b', k')) ↔ ((b ≡ b') × (k ≡ k') × (b' ≢ []) × (k' ≢ []))
unfolding check_parts
check_parts-eq-ok uri b k b' k' = ground (arith, list_beq_iff b [], list_beq_iff k [])

parse_s3_uri_sound :
    (uri b k : Bytes)
    → parse_s3_uri uri ≡ ok (b, k)
    → (uri ≡ scheme ++ b ++ 47 ∷ k) × Lacks 47 b × (b ≢ []) × (k ≢ [])
unfolding parse_s3_uri
parse_s3_uri_sound uri b k h = elim (Option-cases (cut_prefix uri scheme)) [
  | inl e ↦ ground arith
  | inr (rest, e) ↦
      let parts = cut_key rest in
      ground (
        arith,
        append-cut_prefix uri scheme rest e,
        check_parts-eq-ok uri (cut_key rest).0 (cut_key rest).1 b k,
        append-cut_key rest b k,
      )
]

parse_s3_uri-append :
    (b k : Bytes)
    → Lacks 47 b
    → b ≢ []
    → k ≢ []
    → parse_s3_uri (scheme ++ (b ++ 47 ∷ k)) ≡ ok (b, k)
parse_s3_uri-append b k l nb nk =
    let uri = scheme ++ (b ++ 47 ∷ k) in
    let checked = (check_parts-eq-ok uri b k b k).1 (refl, refl, nb, nk) in
    unfold parse_s3_uri in
    ground (arith, cut_prefix-append scheme (b ++ 47 ∷ k), cut_key-append b k l, checked)

-- A URI parses to a bucket and a key exactly if it is "s3://", the bucket, a slash and the key,
-- neither of them empty and the bucket without a slash.
pub parse_s3_uri-eq-ok :
    (uri b k : Bytes)
    → (parse_s3_uri uri ≡ ok (b, k))
      ↔ ((uri ≡ scheme ++ (b ++ 47 ∷ k)) × Lacks 47 b × (b ≢ []) × (k ≢ []))
parse_s3_uri-eq-ok uri b k =
    (parse_s3_uri_sound uri b k, λ (e, l, nb, nk). rw e (parse_s3_uri-append b k l nb nk))

-- The most that one call of `GetObject` reads.
length-take : (n : ℕ) (xs : Bytes) → n ≤ length xs → length (take n xs) ≡ n
unfolding take
length-take zero xs h = refl
length-take (suc n) [] h = absurd (omega arith)
length-take (suc n) (x ∷ xs) h = omega (arith, length-take n xs)

abbrev pub max_int64 : ℕ
max_int64 = 2 ^ 63 - 1

add_int64-one : (n : ℕ) → n < max_int64 → add_int64 n 1 ≡ pos (suc n)
unfolding add_int64
add_int64-one n h = ground arith

read_limit-pos : (size : ℤ) → 0 < read_limit size
unfolding read_limit
read_limit-pos (negsuc n) = omega arith
read_limit-pos (pos zero) = omega arith
read_limit-pos (pos (suc n)) = omega arith

module _ (size : ℤ) (uri : Bytes) (body : Body) (fits : read_limit size < max_int64) where
  -- Below the largest `int64` as its cap, `GetObject` returns a body exactly if the body can be
  -- read to its end and is no longer than the cap, and then it returns the whole of it.
  pub read_body-eq-ok :
      (b : Bytes)
      → (read_body size uri body ≡ ok b)
        ↔ ((b ≡ body.content) × (body.failure ≡ none) × (length body.content ≤ read_limit size))
  unfolding read_body
  read_body-eq-ok b = ground (
    arith,
    add_int64-one (read_limit size) fits,
    length-take (suc (read_limit size)) body.content,
  )

-- With the largest `int64` as its cap, `GetObject` returns an empty body, whatever the object.
pub read_body_max : (uri : Bytes) (body : Body) → read_body (pos max_int64) uri body ≡ ok []
unfolding read_body
read_body_max uri body = refl
