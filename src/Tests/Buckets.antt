-- ===== src/Tests/Buckets.antt =====
-- The whole program over an SDK whose world counts the PUTs outside one directory of one bucket.
use bergrebase.Base.{
  Bytes, Lacks, [], arith, codes, err, errorf, has_prefix, if◌then◌else◌, int_eq, list_beq, list_eq,
  nat_eq, none, ok, pos, refl, some, suc, ℕ, ◌&&◌, ◌==◌, ◌≡◌,
}
use bergrebase.S3.{Sdk}
use bergrebase.Rest.{Transport}
use bergrebase.Cli.Main.{Flags, config_of_flags, real_main}
use bergrebase.Cli.Main.Reach.{real_main-Keeps}
use bergrebase.Tests.Programs.{given, arguments_to, flags_of}
use bergrebase.Tests.Toy.{toy_formats, toy_text}
use bergrebase.S3.Implementation.{Spares}

abbrev counting : Sdk ℕ
counting = record {
  Handle = Unit {0};
  connect = λ _ w. (ok tt, w);
  get = λ _ b k w. (ok (record { content = k; failure = none }), w);
  put = λ _ b k body w. (ok tt, if b == codes "new" && has_prefix k (codes "t/") then w else suc w);
  head = λ _ b k w. (ok (some (pos 0)), w);
}

abbrev None : ℕ → Type 0
None n = n ≡ 0

counting-Spares : Spares counting None (codes "new") (codes "t/")
unfolding list_beq
counting-Spares = record {
  connects = λ cfg. record { keeps = λ w h. h; returns = λ w a h e. tt };
  gets = λ cli b k. record { keeps = λ w h. h; returns = λ w a h e. tt };
  heads = λ cli b k. record { keeps = λ w h. h; returns = λ w a h e. tt };
  puts = λ cli k body inside. record { keeps = λ w h. rw inside h; returns = λ w a h e. tt };
}

new-Lacks : Lacks 47 (codes "new")
new-Lacks = ((λ h. omega arith), ((λ h. omega arith), ((λ h. omega arith), tt)))

-- A catalog that has nothing, and takes no notice of a request.
abbrev silent : Transport ℕ
silent = record {
  Url = Bytes;
  parse_url = λ u. ok u;
  join_path = λ u _. u;
  set_query = λ u _. u;
  url_path = λ u. u;
  path_escape = λ s. s;
  path_join = λ _. [];
  trim_space = λ s. s;
  send = λ _ _ w. (ok (record { status = 404; content = [] }), w);
  decode_config = λ _. err (errorf "nothing" []);
  decode_namespaces = λ _. ok [];
  decode_tables = λ _. ok [];
  decode_load = λ _. err (errorf "nothing" []);
}

abbrev into_new : Flags
into_new = flags_of (arguments_to (codes "s3://new/t/"))

real_main-Keeps_example :
    None (real_main toy_formats toy_text counting silent (λ _. []) 5 into_new 0).1
unfolding config_of_flags list_beq given
real_main-Keeps_example =
    real_main-Keeps counting silent None (codes "new") (codes "t/") new-Lacks counting-Spares
      (λ ctx req. record { keeps = λ w h. h; returns = λ w a h e. tt }) toy_formats toy_text
      (λ _. []) 5 into_new 0 refl refl
