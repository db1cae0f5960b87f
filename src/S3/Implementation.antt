-- ===== src/S3/Implementation.antt =====
-- internal/storage/s3.go: the client as the storage of the rewriter, and which objects it writes.
use bergrebase.Base.{
  Action, Always, Bytes, Ensures-bind, Ensures-context, Ensures-lift, Keeps, Lacks, Option-cases,
  [], ap, append-cut_prefix, append_assoc, cut-append, cut_prefix-append, has_prefix,
  has_prefix-append, has_prefix_rest, inl, inr, ok, true, ◌++◌, ◌∙◌, ◌∷◌, ◌≡◌,
}
use bergrebase.Storage.{Storage, Reads, WritesUnder}
use bergrebase.S3.{
  scheme, parse_s3_uri, Config, Sdk, Client, call, max_size, client, client_of, remember,
  get_object, put_object, head_object,
}
use bergrebase.S3.Uri.{parse_s3_uri-eq-ok}

-- the client as a `rewrite.Storage`
abbrev pub storage_of : {W : Type 0} (sdk : Sdk W) → Storage (Client sdk × W)
storage_of sdk = record {
  get_object = get_object sdk;
  put_object = put_object sdk;
  head_object = head_object sdk;
}

-- the URIs of the objects of a bucket whose keys begin with `dir`
abbrev pub uri_of : Bytes → Bytes → Bytes
uri_of bucket dir = scheme ++ (bucket ++ 47 ∷ dir)

-- A URI under a prefix parses to the bucket of the prefix, and to a key under its directory.
parsed_under :
    (bucket dir uri b k : Bytes)
    → Lacks 47 bucket
    → has_prefix uri (uri_of bucket dir) ≡ true
    → parse_s3_uri uri ≡ ok (b, k)
    → (b ≡ bucket) × (has_prefix k dir ≡ true)
parsed_under bucket dir uri b k l under parsed =
    let (e, lb, _, _) = (parse_s3_uri-eq-ok uri b k).0 parsed in
    let (r, cut_at) = has_prefix_rest uri (uri_of bucket dir) under in
    let whole : uri ≡ scheme ++ (bucket ++ 47 ∷ (dir ++ r)) =
      append-cut_prefix uri (uri_of bucket dir) r cut_at
      ∙ append_assoc scheme (bucket ++ 47 ∷ dir) r
      ∙ ap (λ x. scheme ++ x) (append_assoc bucket (47 ∷ dir) r) in
    let rests : b ++ 47 ∷ k ≡ bucket ++ 47 ∷ (dir ++ r) = cc (
      cut_prefix-append scheme (b ++ 47 ∷ k),
      cut_prefix-append scheme (bucket ++ 47 ∷ (dir ++ r)),
      e,
      whole,
    ) in
    let bucket_is : b ≡ bucket =
      cc (cut-append 47 b k lb, cut-append 47 bucket (dir ++ r) l, rests) in
    let key_is : k ≡ dir ++ r =
      cc (cut-append 47 b k lb, cut-append 47 bucket (dir ++ r) l, rests) in
    (bucket_is, rw key_is (has_prefix-append dir r))

module _ {W : Type 0} (sdk : Sdk W) (P : W → Type 0) where
  open sdk use {Handle, connect, get, put, head}

  -- What the code relies on: making a client, GETs and HEADs leave `P` alone, and so do PUTs to the
  -- bucket at the keys that begin with `dir`.
  pub record Spares (bucket dir : Bytes) : Type 0 where
    pub connects : (cfg : Config) → Keeps P (connect cfg)
    pub gets : (cli : Handle) (b k : Bytes) → Keeps P (get cli b k)
    pub heads : (cli : Handle) (b k : Bytes) → Keeps P (head cli b k)
    pub puts :
        (cli : Handle) (k body : Bytes) → has_prefix k dir ≡ true → Keeps P (put cli bucket k body)

  -- `P`, with the client beside it
  abbrev pub Spared : Client sdk × W → Type 0
  Spared (c, w) = P w

  call-Spared : {A : Type 0} (m : Action W A) → Keeps P m → Keeps Spared (call sdk m)
  unfolding call
  call-Spared m k = record { keeps = λ (c, w) p. k.keeps w p; returns = λ w a h e. tt }

  max_size-Spared : Keeps Spared (max_size sdk)
  unfolding max_size
  max_size-Spared = record { keeps = λ (c, w) p. p; returns = λ w a h e. tt }

  module _ (bucket dir : Bytes) (l : Lacks 47 bucket) (s : Spares bucket dir) where
    client-Spared : Keeps Spared (client sdk)
    unfolding client client_of remember
    client-Spared = record { keeps = λ (c, w) p. kept c w p; returns = λ w a h e. tt }
      where
        kept : (c : Client sdk) (w : W) → P w → Spared (client sdk (c, w)).1
        kept c w p = elim (Option-cases c.built) [
          | inl e ↦
              rw (e, client_of)
                (((Ensures-context {Q = Always} "storage: load aws config: %w" [] (connect c.cfg)
                    (s.connects c.cfg)).keeps
                  w p))
          | inr (r, e) ↦ rw (e, client_of) p
        ]

    get_object-Spared : (uri : Bytes) → Keeps Spared (get_object sdk uri)
    unfolding get_object
    get_object-Spared uri = Ensures-bind {Q = Always} _ _ (Ensures-lift _ (λ _ _. tt)) λ (b, k) _.
        Ensures-bind _ _ client-Spared λ cli _.
          Ensures-bind _ _ (Ensures-context _ _ _ (call-Spared _ (s.gets cli b k)))
            λ out _. Ensures-bind _ _ max_size-Spared λ size _. Ensures-lift _ (λ _ _. tt)

    head_object-Spared : (uri : Bytes) → Keeps Spared (head_object sdk uri)
    unfolding head_object
    head_object-Spared uri = Ensures-bind {Q = Always} _ _ (Ensures-lift _ (λ _ _. tt)) λ (b, k) _.
        Ensures-bind _ _ client-Spared λ cli _.
          Ensures-bind _ _ (Ensures-context _ _ _ (call-Spared _ (s.heads cli b k)))
            λ out _. Ensures-lift _ (λ _ _. tt)

    put_inside :
        (cli : Handle) (b k body : Bytes)
        → b ≡ bucket
        → has_prefix k dir ≡ true
        → Keeps P (put cli b k body)
    put_inside cli b k body same inside = rw same (s.puts cli k body inside)

    put_object-Spared :
        (uri body : Bytes)
        → has_prefix uri (uri_of bucket dir) ≡ true
        → Keeps Spared (put_object sdk uri body)
    unfolding put_object
    put_object-Spared uri body under =
        Ensures-bind {Q = λ (p : Bytes × Bytes). parse_s3_uri uri ≡ ok (p.0, p.1)} _ _
          (Ensures-lift _ (λ _ e. e))
          λ (b, k) parsed.
            let (same, inside) = parsed_under bucket dir uri b k l under parsed in
            Ensures-bind _ _ client-Spared
              λ cli _. Ensures-context _ _ _ (call-Spared _ (put_inside cli b k body same inside))

    -- With a bucket whose name has no slash: what the SDK leaves alone in making a client, in reading
    -- and in PUTs to the bucket at keys that begin with `dir`, that the client leaves alone as a
    -- storage in reading, and in writing at the URIs that begin with "s3://", the bucket, a slash and
    -- `dir`.
    pub storage_of-WritesUnder :
        Reads Spared (storage_of sdk) × WritesUnder Spared (uri_of bucket dir) (storage_of sdk)
    storage_of-WritesUnder = (
      record { get_keeps = get_object-Spared; head_keeps = head_object-Spared },
      put_object-Spared,
    )
