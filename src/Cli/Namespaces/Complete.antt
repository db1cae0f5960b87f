-- ===== src/Cli/Namespaces/Complete.antt =====
-- `listAllNamespaces` lists each namespace once and misses none.
use mathlib.Core.List.{map, Memᴰ, map-append}
use mathlib.Core.List.Memᴰ
use bergrebase.Base.{
  ==_refl, Bool-cases, Bytes, List, [], ap, arith, false, inl, inr, int_eq, length, list_eq, nat_eq,
  ok, refl, some, suc, sym, true, zero, ℕ, ◌++◌, ◌+◌, ◌↔◌, ◌∙◌, ◌∷◌, ◌≡◌, ◌≤◌, ◌⊎◌,
}
use bergrebase.Catalog.{Namespace, Catalog}
use bergrebase.Cli.Namespaces.{key_of, is_visited, list_all_namespaces}
use bergrebase.Cli.Namespaces.Walk.{
  Reach, root, below, walk, Lists, Closed, weight, walk_returns, list_all_namespaces-walk,
}
use bergrebase.Cli.Namespaces.Keys.{
  is_visited-append, visited-mem, DistinctKeys, DistinctKeys-append, Plain, key_of-injective,
}

module _ (children : Namespace → List Namespace) where
  record Inv (queue : List Namespace) (visited : List Bytes) (all : List Namespace) : Type 0 where
    queued : (ns : Namespace) → Memᴰ ns queue → Reach children ns
    sound : (ns : Namespace) → Memᴰ ns all → Reach children ns
    keys : (k : Bytes) → is_visited k visited ≡ is_visited k (map key_of all)
    distinct : DistinctKeys all
    roots :
        (ns : Namespace)
        → Memᴰ ns (children [])
        → Memᴰ ns queue ⊎ (is_visited (key_of ns) visited ≡ true)
    closed :
        (ns child : Namespace)
        → Memᴰ ns all
        → Memᴰ child (children ns)
        → Memᴰ child queue ⊎ (is_visited (key_of child) visited ≡ true)

  Inv-start : Inv (children []) [] []
  Inv-start = record {
    queued = λ ns m. root m;
    sound = λ ns m. absurd (Memᴰ.not-nil m);
    keys = λ k. refl;
    distinct = tt;
    roots = λ ns m. inl m;
    closed = λ ns child m. absurd (Memᴰ.not-nil m);
  }

  -- A namespace that is visited already is taken off the queue.
  still :
      (ns x : Namespace) (queue : List Namespace) (visited : List Bytes)
      → is_visited (key_of ns) visited ≡ true
      → Memᴰ x (ns ∷ queue) ⊎ (is_visited (key_of x) visited ≡ true)
      → Memᴰ x queue ⊎ (is_visited (key_of x) visited ≡ true)
  still ns x queue visited seen (inr v) = inr v
  still ns x queue visited seen (inl m) = elim (Memᴰ.cases_cons m) [
    | inl e ↦ inr (rw e seen)
    | inr later ↦ inl later
  ]

  -- A new one is visited, and what waited still waits.
  moves_on :
      (ns x : Namespace) (queue more : List Namespace) (visited : List Bytes)
      → Memᴰ x (ns ∷ queue) ⊎ (is_visited (key_of x) visited ≡ true)
      → Memᴰ x (queue ++ more) ⊎ (is_visited (key_of x) (key_of ns ∷ visited) ≡ true)
  unfolding is_visited
  moves_on ns x queue more visited (inr v) = inr (ground arith)
  moves_on ns x queue more visited (inl m) = elim (Memᴰ.cases_cons m) [
    | inl e ↦ inr (rw e (ground (arith, ==_refl (key_of ns))))
    | inr later ↦ inl (Memᴰ.append_left more later)
  ]

  Inv-skip :
      (ns : Namespace) (queue : List Namespace) (visited : List Bytes) (all : List Namespace)
      → Inv (ns ∷ queue) visited all
      → is_visited (key_of ns) visited ≡ true
      → Inv queue visited all
  Inv-skip ns queue visited all h seen = record {
    queued = λ x m. h.queued x (Memᴰ.tail m);
    sound = h.sound;
    keys = h.keys;
    distinct = h.distinct;
    roots = λ x m. still ns x queue visited seen (h.roots x m);
    closed = λ x child m c. still ns child queue visited seen (h.closed x child m c);
  }

  Inv-expand :
      (ns : Namespace) (queue : List Namespace) (visited : List Bytes) (all : List Namespace)
      → Inv (ns ∷ queue) visited all
      → is_visited (key_of ns) visited ≡ false
      → Inv (queue ++ children ns) (key_of ns ∷ visited) (all ++ ns ∷ [])
  unfolding is_visited
  Inv-expand ns queue visited all h unseen =
      let here : Reach children ns = h.queued ns (Memᴰ.head refl) in
      record {
        queued = λ x m. elim (Memᴰ.append_cases queue m) [
          | inl waiting ↦ h.queued x (Memᴰ.tail waiting)
          | inr child ↦ below here child
        ];
        sound = λ x m. elim (Memᴰ.append_cases all m) [
          | inl old ↦ h.sound x old
          | inr last ↦ rw (Memᴰ.eq_of_singleton last) here
        ];
        keys = λ k.
            rw map-append
              (ground (arith, h.keys k, is_visited-append k (key_of ns) (map key_of all)));
        distinct = DistinctKeys-append all ns h.distinct (sym (h.keys (key_of ns)) ∙ unseen);
        roots = λ x m. moves_on ns x queue (children ns) visited (h.roots x m);
        closed = λ x child m c. elim (Memᴰ.append_cases all m) [
          | inl old ↦ moves_on ns child queue (children ns) visited (h.closed x child old c)
          | inr last ↦ inl (Memᴰ.append_right queue (rw (Memᴰ.eq_of_singleton last) at c))
        ];
      }

  walk-Inv :
      (rounds : ℕ) (queue : List Namespace) (visited : List Bytes) (all found : List Namespace)
      → Inv queue visited all
      → walk children rounds queue visited all ≡ some found
      → (visited' : List Bytes) × Inv [] visited' found
  unfolding walk
  walk-Inv rounds [] visited all found h e = let same : all ≡ found = cc in (visited, rw (← same) h)
  walk-Inv zero (ns ∷ queue) visited all found h e = absurd (cc)
  walk-Inv (suc rounds) (ns ∷ queue) visited all found h e =
      elim (Bool-cases (is_visited (key_of ns) visited)) [
        | inl seen ↦
            walk-Inv rounds queue visited all found (Inv-skip ns queue visited all h seen)
              (rw (seen, walk) at e)
        | inr unseen ↦
            walk-Inv rounds (queue ++ children ns) (key_of ns ∷ visited) (all ++ ns ∷ []) found
              (Inv-expand ns queue visited all h unseen) (rw (unseen, walk) at e)
      ]

  module _
      (apart : (a b : Namespace)
        → Reach children a
        → Reach children b
        → key_of a ≡ key_of b
        → a ≡ b)
      (visited : List Bytes) (found : List Namespace) (h : Inv [] visited found) where
    by_key :
        (ns : Namespace)
        → Reach children ns
        → Memᴰ ns [] ⊎ (is_visited (key_of ns) visited ≡ true)
        → Memᴰ ns found
    by_key ns r (inl m) = absurd (Memᴰ.not-nil m)
    by_key ns r (inr seen) =
        let (x, m, same) = visited-mem (key_of ns) found (sym (h.keys (key_of ns)) ∙ seen) in
        Memᴰ.cast (apart ns x r (h.sound x m) (sym same)) m

    -- With an empty queue, each namespace that leads from the root is in the list.
    complete : {ns : Namespace} → Reach children ns → Memᴰ ns found
    complete (root {ns} m) = by_key ns (root m) (h.roots ns m)
    complete (below {ns} {child} r m) = by_key child (below r m) (h.closed ns child (complete r) m)

module _ {W : Type 0} (cat : Catalog W) (children : Namespace → List Namespace)
    (lists : Lists children cat) (us : List Namespace)
    (inside : (ns : Namespace) → Memᴰ ns (children []) → Memᴰ ns us)
    (closed : Closed children us) where
  -- On a catalog that gives the same children whenever it is asked, all of them within a finite
  -- list that is closed under children, the walk ends within as many rounds as there are listings
  -- to put on the queue.
  pub list_all_namespaces_returns :
      (rounds : ℕ) (w : W)
      → length (children []) + weight children us [] ≤ rounds
      → (found : List Namespace) × ((list_all_namespaces cat rounds w).0 ≡ ok (some found))
  list_all_namespaces_returns rounds w enough =
      let (found, e) = walk_returns children us closed rounds (children []) [] [] inside enough in
      (found, list_all_namespaces-walk children cat lists rounds w ∙ ap ok e)

  -- On a catalog that gives the same children whenever it is asked, all of them within a finite
  -- list that is closed under children, and with at least as many rounds as there are listings to
  -- put on the queue: where every namespace that leads from the root is plain, the walk ends and
  -- lists exactly the namespaces that lead from the root, no two of them with the same key.
  pub list_all_namespaces_complete :
      (rounds : ℕ) (w : W)
      → length (children []) + weight children us [] ≤ rounds
      → ((ns : Namespace) → Reach children ns → Plain ns)
      → (found : List Namespace) × ((list_all_namespaces cat rounds w).0 ≡ ok (some found))
        × DistinctKeys found
        × ((ns : Namespace) → Memᴰ ns found ↔ Reach children ns)
  list_all_namespaces_complete rounds w enough plain =
      let (found, e) = walk_returns children us closed rounds (children []) [] [] inside enough in
      let (visited, h) =
        walk-Inv children rounds (children []) [] [] found (Inv-start children) e in
      let apart = λ (a b : Namespace) (r : Reach children a) (s : Reach children b).
        key_of-injective a b (plain a r) (plain b s) in
      (
        found,
        list_all_namespaces-walk children cat lists rounds w ∙ ap ok e,
        h.distinct,
        λ ns. (h.sound ns, λ r. complete children apart visited found h r),
      )
