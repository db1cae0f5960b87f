-- ===== src/S3.antt =====
-- internal/storage/s3.go: the S3 client, over the SDK's calls as a parameter.
pub mod Uri
pub mod Implementation
use Prim.Native.Nat.{◌-◌, ◌%◌, ◌^◌}
use bergrebase.Base.{
  Action, Bool, Bytes, Error, Option, Result, [], bind, codes, context, cut, cut_prefix, err,
  errorf, if◌then◌else◌, int_eq, leb, length, lift, list_eq, ltb, nat_eq, negsuc, none, number, ok,
  pos, some, suc, text, wrap, zero, ℕ, ℤ, ◌+◌, ◌==◌, ◌>>=◌, ◌>>◌, ◌∷◌,
}

abbrev pub scheme : Bytes
scheme = codes "s3://"

-- what `ParseS3URI` does with what stands behind the scheme
unfoldable pub check_parts : Bytes → Bytes → Bytes → Result (Bytes × Bytes)
check_parts uri bucket key =
    if bucket == []
    then err (errorf "storage: missing bucket in %q" (text uri ∷ []))
    else if key == []
    then err (errorf "storage: missing key in %q" (text uri ∷ []))
    else ok (bucket, key)

-- `bucket, key, _ = strings.Cut(rest, "/")`
unfoldable pub cut_key : Bytes → Bytes × Bytes
unfolding cut
cut_key rest = elim (cut rest (codes "/")) [ none ↦ (rest, []) | some parts ↦ parts ]

unfoldable pub unsupported_scheme : Bytes → Error
unfolding cut
unsupported_scheme uri =
    errorf "storage: unsupported scheme %q in %q (want s3://)"
      (text (elim (cut uri (codes "://")) [ none ↦ uri | some (name, _) ↦ name ]) ∷ text uri ∷ [])

-- `ParseS3URI`
unfoldable pub parse_s3_uri : Bytes → Result (Bytes × Bytes)
unfolding cut_prefix check_parts cut_key unsupported_scheme
parse_s3_uri uri = elim (cut_prefix uri scheme) [
  | none ↦ err (unsupported_scheme uri)
  | some rest ↦ let (bucket, key) = cut_key rest in check_parts uri bucket key
]

-- `storage.Config`
pub record Config : Type 0 where
  pub region : Bytes
  pub endpoint : Bytes
  pub path_style : Bool
  pub access_key_id : Bytes
  pub secret_access_key : Bytes
  pub session_token : Bytes
  pub max_object_size : ℤ

-- 256 << 20
abbrev pub default_max_object_size : ℕ
default_max_object_size = 268435456

-- A sum of two numbers that are not negative, in `int64`.
unfoldable pub add_int64 : ℕ → ℕ → ℤ
add_int64 a b =
    let s = (a + b) % 2 ^ 64 in if ltb s (2 ^ 63) then pos s else negsuc (2 ^ 64 - s - 1)

-- The body of a response: what can be read of it, and the error that then ends the reading.
pub record Body : Type 0 where
  pub content : Bytes
  pub failure : Option Error

unfoldable pub take : ℕ → Bytes → Bytes
take zero xs = []
take (suc n) [] = []
take (suc n) (x ∷ xs) = x ∷ take n xs

-- `io.Copy(buf, io.LimitReader(body, n))`
unfoldable pub copy_limited : Body → ℤ → Result Bytes
unfolding take
copy_limited body (negsuc _) = ok []
copy_limited body (pos n) =
    if leb n (length body.content)
    then ok (take n body.content)
    else elim body.failure [ some e ↦ err e | none ↦ ok body.content ]

-- `limit := c.cfg.MaxObjectSize; if limit <= 0 { limit = DefaultMaxObjectSize }`
unfoldable pub read_limit : ℤ → ℕ
read_limit (negsuc _) = default_max_object_size
read_limit (pos zero) = default_max_object_size
read_limit (pos (suc n)) = suc n

-- the reading part of `GetObject`
unfoldable pub read_body : ℤ → Bytes → Body → Result Bytes
unfolding copy_limited read_limit add_int64
read_body max_object_size uri body =
    let limit = read_limit max_object_size in
    bind (wrap "storage: read %s: %w" (text uri ∷ []) (copy_limited body (add_int64 limit 1)))
      λ buf.
        if ltb limit (length buf)
        then err (
            errorf
              "storage: %s exceeds the per-object read cap of %d bytes; if this is a legitimately large metadata or position-delete file, raise the cap with --max-object-size"
              (text uri ∷ number limit ∷ []))
        else ok buf

-- The calls of the SDK that the client makes. `Handle` is a constructed `*s3.Client`.
pub record Sdk (W : Type 0) : Type 1 where
  pub Handle : Type 0
  pub connect : Config → Action W Handle
  pub get : Handle → Bytes → Bytes → Action W Body
  pub put : Handle → Bytes → Bytes → Bytes → Action W (Unit {0})
  pub head : Handle → Bytes → Bytes → Action W (Option ℤ)

module _ {W : Type 0} (sdk : Sdk W) where
  open sdk use {Handle, connect, get, put, head}

  -- `storage.Client`: what `once.Do` left in `s3` and `initErr`, if it has run.
  pub record Client : Type 0 where
    pub cfg : Config
    pub built : Option (Result Handle)

  unfoldable pub new : Config → Client
  new cfg = record { cfg = cfg; built = none }

  unfoldable pub remember : Client → Result Handle → W → Result Handle × (Client × W)
  remember c r w = (r, (record c { built = some r }, w))

  unfoldable pub client_of : Option (Result Handle) → Action (Client × W) Handle
  unfolding remember context
  client_of (some r) (c, w) = (r, (c, w))
  client_of none (c, w) =
      let (r, w') = context "storage: load aws config: %w" [] (connect c.cfg) w in remember c r w'

  -- `c.client(ctx)`
  unfoldable pub client : Action (Client × W) Handle
  unfolding client_of
  client (c, w) = client_of c.built (c, w)

  -- a call of the SDK, which does not touch the client
  unfoldable pub call : {A : Type 0} → Action W A → Action (Client × W) A
  call m (c, w) = let (r, w') = m w in (r, (c, w'))

  unfoldable pub max_size : Action (Client × W) ℤ
  max_size (c, w) = (ok c.cfg.max_object_size, (c, w))

  -- `GetObject`
  unfoldable pub get_object : Bytes → Action (Client × W) Bytes
  unfolding parse_s3_uri client call max_size read_body
  get_object uri = do
    (bucket, key) ← lift (parse_s3_uri uri)
    cli ← client
    out ← context "storage: get %s: %w" (text uri ∷ []) (call (get cli bucket key))
    size ← max_size
    lift (read_body size uri out)

  -- `PutObject`
  unfoldable pub put_object : Bytes → Bytes → Action (Client × W) (Unit {0})
  unfolding parse_s3_uri client call
  put_object uri body = do
    (bucket, key) ← lift (parse_s3_uri uri)
    cli ← client
    context "storage: put %s: %w" (text uri ∷ []) (call (put cli bucket key body))

  unfoldable pub content_length : Bytes → Option ℤ → Result ℤ
  content_length uri none =
      err (errorf "storage: head %s: server returned no Content-Length" (text uri ∷ []))
  content_length uri (some n) = ok n

  -- `HeadObject`
  unfoldable pub head_object : Bytes → Action (Client × W) ℤ
  unfolding parse_s3_uri client call content_length
  head_object uri = do
    (bucket, key) ← lift (parse_s3_uri uri)
    cli ← client
    out ← context "storage: head %s: %w" (text uri ∷ []) (call (head cli bucket key))
    lift (content_length uri out)
