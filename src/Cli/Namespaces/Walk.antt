-- ===== src/Cli/Namespaces/Walk.antt =====
-- `listAllNamespaces` on a catalog that gives the same children whenever it is asked: the search by
-- itself, without the calls.
use mathlib.Core.List.{Memᴰ}
use mathlib.Core.List.Memᴰ
use bergrebase.Base.{
  ==_refl, >>=-value, Bool-cases, Bytes, List, Option, [], arith, context-of_value, false,
  if◌then◌else◌, inl, inr, int_eq, length, length-append, list_eq, nat_eq, none, ok, pure, refl,
  some, suc, true, zero, ℕ, ◌++◌, ◌+◌, ◌∷◌, ◌≡◌, ◌≤◌,
}
use bergrebase.Catalog.{Namespace, Catalog}
use bergrebase.Cli.Namespaces.{key_of, is_visited, visit_queue, list_all_namespaces}

-- The namespaces that lead from the root.
pub data Reach (children : Namespace → List Namespace) : Namespace → Type 0 where
  root : {ns : Namespace} → Memᴰ ns (children []) → Reach children ns
  below :
      {ns child : Namespace} → Reach children ns → Memᴰ child (children ns) → Reach children child

module _ (children : Namespace → List Namespace) where
  unfoldable pub walk : ℕ → List Namespace → List Bytes → List Namespace → Option (List Namespace)
  walk rounds [] visited all = some all
  walk zero (ns ∷ queue) visited all = none
  walk (suc rounds) (ns ∷ queue) visited all = elim (is_visited (key_of ns) visited) [
    | true ↦ walk rounds queue visited all
    | false ↦ walk rounds (queue ++ children ns) (key_of ns ∷ visited) (all ++ ns ∷ [])
  ]

  -- Each call of `ListNamespaces` succeeds with the children.
  abbrev pub Lists : {W : Type 0} → Catalog W → Type 0
  Lists {W} cat = (ns : Namespace) (w : W) → (cat.list_namespaces ns w).0 ≡ ok (children ns)

  module _ {W : Type 0} (cat : Catalog W) (lists : Lists cat) where
    visit_queue-walk :
        (rounds : ℕ) (queue : List Namespace) (visited : List Bytes) (all : List Namespace) (w : W)
        → (visit_queue cat rounds queue visited all w).0 ≡ ok (walk rounds queue visited all)
    unfolding visit_queue walk pure
    visit_queue-walk rounds [] visited all w = refl
    visit_queue-walk zero (ns ∷ queue) visited all w = refl
    visit_queue-walk (suc rounds) (ns ∷ queue) visited all w =
        elim (Bool-cases (is_visited (key_of ns) visited)) [
          | inl seen ↦ rw (seen, visit_queue, walk) (visit_queue-walk rounds queue visited all w)
          | inr unseen ↦
              rw (unseen, visit_queue, walk)
                (>>=-value _ _ w (context-of_value _ _ (cat.list_namespaces ns) w (lists ns w)) (
                  visit_queue-walk rounds (queue ++ children ns) (key_of ns ∷ visited)
                    (all ++ ns ∷ [])))
        ]

    pub list_all_namespaces-walk :
        (rounds : ℕ) (w : W)
        → (list_all_namespaces cat rounds w).0 ≡ ok (walk rounds (children []) [] [])
    unfolding list_all_namespaces
    list_all_namespaces-walk rounds w =
        >>=-value _ _ w (context-of_value _ _ (cat.list_namespaces []) w (lists [] w))
          (visit_queue-walk rounds (children []) [] [])

  -- How many namespaces the calls for those that are not visited yet will bring.
  unfoldable pub weight : List Namespace → List Bytes → ℕ
  weight [] visited = 0
  weight (u ∷ us) visited =
      (if is_visited (key_of u) visited then 0 else length (children u)) + weight us visited

  weight_visit :
      (us : List Namespace) (k : Bytes) (visited : List Bytes)
      → weight us (k ∷ visited) ≤ weight us visited
  unfolding weight is_visited
  weight_visit [] k visited = omega arith
  weight_visit (u ∷ us) k visited = ground (arith, weight_visit us k visited)

  weight_expand :
      (us : List Namespace) (ns : Namespace) (visited : List Bytes)
      → Memᴰ ns us
      → is_visited (key_of ns) visited ≡ false
      → weight us (key_of ns ∷ visited) + length (children ns) ≤ weight us visited
  unfolding weight is_visited
  weight_expand [] ns visited m h = absurd (Memᴰ.not-nil m)
  weight_expand (u ∷ us) ns visited m h = elim (Memᴰ.cases_cons m) [
    | inl e ↦ rw (← e) (ground (arith, weight_visit us (key_of ns) visited, ==_refl (key_of ns)))
    | inr later ↦ ground (arith, weight_expand us ns visited later)
  ]

  -- The namespaces of `us` are closed under children.
  abbrev pub Closed : List Namespace → Type 0
  Closed us = (ns child : Namespace) → Memᴰ ns us → Memᴰ child (children ns) → Memᴰ child us

  -- The search ends within as many rounds as there are namespaces to put on the queue.
  pub walk_returns :
      (us : List Namespace)
      → Closed us
      → (rounds : ℕ) (queue : List Namespace) (visited : List Bytes) (all : List Namespace)
      → ((ns : Namespace) → Memᴰ ns queue → Memᴰ ns us)
      → length queue + weight us visited ≤ rounds
      → (found : List Namespace) × (walk rounds queue visited all ≡ some found)
  unfolding walk
  walk_returns us closed rounds [] visited all inside h = (all, refl)
  walk_returns us closed zero (ns ∷ queue) visited all inside h = absurd (omega arith)
  walk_returns us closed (suc rounds) (ns ∷ queue) visited all inside h =
      elim (Bool-cases (is_visited (key_of ns) visited)) [
        | inl seen ↦
            rw (seen, walk)
              (walk_returns us closed rounds queue visited all (λ x m. inside x (Memᴰ.tail m))
                (omega arith))
        | inr unseen ↦
            let here : Memᴰ ns us = inside ns (Memᴰ.head refl) in
            rw (unseen, walk)
              (walk_returns us closed rounds (queue ++ children ns) (key_of ns ∷ visited)
                (all ++ ns ∷ [])
                (λ x m. elim (Memᴰ.append_cases queue m) [
                  | inl waiting ↦ inside x (Memᴰ.tail waiting)
                  | inr child ↦ closed ns x here child
                ])
                (omega (
                  arith,
                  length-append queue (children ns),
                  weight_expand us ns visited here unseen,
                )))
      ]
