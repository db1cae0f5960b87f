-- ===== src/Rest/Swap/Exchange.antt =====
-- What `SwapMetadataLocation` does to the catalog's pointer.
use bergrebase.Base.{
  Action, Bytes, Ends, Ends-attempt, Ends-bind, Ends-context, Ends-if, Ends-step, Ends-weaken,
  Error, OnResult, Option, Result, String, [], ap, attempt, context, err, fail, inl, int_eq,
  list_beq_iff, list_eq, nat_eq, ok, pure, refl, some, text, true, wrapf, ◌==◌, ◌>>=◌, ◌>>◌, ◌∙◌,
  ◌∷◌, ◌≡◌, ◌≢◌,
}
use bergrebase.Catalog.{Identifier, Table}
use bergrebase.Catalog.Contract.{NotSwapped}
use bergrebase.Rest.{
  caller, Transport, Config, Client, call, SwapMode, mode_unknown, mode_atomic, mode_drop_register,
  is_already_exists, is_bad_request,
}
use bergrebase.Rest.Requests.{init, config_of, load_table, register_table, qualified_name}
use bergrebase.Rest.Server.{Serves, register-Ends}
use bergrebase.Rest.Loading.{
  Started, Loaded, call-Ends, init-Started, config_of-Started, load_table-Ends,
}
use bergrebase.Rest.Swap.{
  swap_by_drop_register, load_mode, store_mode, after_probe, swap_in, swap_loaded,
  swap_metadata_location,
}
use bergrebase.Rest.Swap.Pointer.{swap_by_drop_register-Ends}

module _ {W : Type 0} (t : Transport W) (cfg : Config) (at : t.Url × Bytes) (id : Identifier)
    (pointer : W → Option Bytes) (s : Serves t cfg at id pointer) (old new : Bytes) where
  abbrev swap_body : Action W (Unit {0})
  swap_body = swap_by_drop_register t cfg at id old new

  abbrev Now : Unit {0} → Client t × W → Type 0
  Now u (d, w') = pointer w' ≡ some new

  abbrev Failed : Error → Client t × W → Type 0
  Failed e (d, w') = NotSwapped (some old) e (pointer w')

  by_drop-Ends :
      (c : Client t) (w : W) → pointer w ≡ some old → Ends (call t swap_body) (c, w) Now Failed
  by_drop-Ends c w h =
      Ends-weaken (call t swap_body) (c, w) (λ u (d, w'). (d ≡ c) × (pointer w' ≡ some new)) Now
        Failed Failed
        (call-Ends t (λ u w'. pointer w' ≡ some new) (λ e w'. NotSwapped (some old) e (pointer w'))
          swap_body c w (swap_by_drop_register-Ends t cfg at id pointer s old new w h))
        (λ u (d, w') (q, done). done) (λ e (d, w') q. q)

  after_probe-Ends :
      (r : Result (Unit {0})) (c : Client t) (w : W)
      → OnResult (λ u w'. pointer w' ≡ some new) (λ e w'. pointer w' ≡ some old) (r, w)
      → Ends (after_probe t cfg at id old new r) (c, w) Now Failed
  unfolding after_probe store_mode fail
  after_probe-Ends (ok u) c w h = h
  after_probe-Ends (err e) c w h =
      Ends-if (is_already_exists e) _ _ (c, w) Now Failed
        (λ _.
          Ends-step (store_mode t mode_drop_register) _ (c, w) tt
            (record c { swap_mode = mode_drop_register }, w) Now Failed refl
            (by_drop-Ends (record c { swap_mode = mode_drop_register }) w h))
        (λ _.
          Ends-if (is_bad_request e) _ _ (c, w) Now Failed (λ _. by_drop-Ends c w h) (λ _. inl h))

  -- What the registration over the old location leaves.
  abbrev Probed : Result (Unit {0}) → W → Type 0
  Probed (ok u) w = pointer w ≡ some new
  Probed (err e) w = pointer w ≡ some old

  abbrev register_over : Action W (Unit {0})
  register_over = register_table t cfg at caller id new true

  register_over-Ends :
      (w : W)
      → pointer w ≡ some old
      → Ends register_over w (λ u w'. pointer w' ≡ some new) (λ e w'. pointer w' ≡ some old)
  register_over-Ends w h =
      Ends-weaken register_over w (λ u w'. pointer w' ≡ some new) (λ u w'. pointer w' ≡ some new)
        (λ e w'. pointer w' ≡ pointer w) (λ e w'. pointer w' ≡ some old)
        (register-Ends t cfg at id pointer s caller new true w) (λ u w' q. q) (λ e w' q. q ∙ h)

  atomic-Ends :
      (c : Client t) (w : W)
      → pointer w ≡ some old
      → Ends (call t register_over) (c, w) Now (λ e (d, w'). pointer w' ≡ some old)
  atomic-Ends c w h =
      Ends-weaken (call t register_over) (c, w) (λ u (d, w'). (d ≡ c) × (pointer w' ≡ some new)) Now
        (λ e (d, w'). pointer w' ≡ some old) (λ e (d, w'). pointer w' ≡ some old)
        (call-Ends t (λ u w'. pointer w' ≡ some new) (λ e w'. pointer w' ≡ some old) register_over c
          w (register_over-Ends w h))
        (λ u (d, w') (q, now). now) (λ e (d, w') q. q)

  probe-Ends :
      (c : Client t) (w : W)
      → pointer w ≡ some old
      → Ends (call t (attempt register_over)) (c, w) (λ r (d, w'). (d ≡ c) × Probed r w') Failed
  probe-Ends c w h =
      let Never : Error → W → Type 0 = λ e w'. NotSwapped (some old) e (pointer w') in
      call-Ends t Probed Never (attempt register_over) c w
        (Ends-attempt register_over w Probed Never (register_over-Ends w h))

  swap_in-Ends :
      (mode : SwapMode) (c : Client t) (w : W)
      → pointer w ≡ some old
      → Ends (swap_in t cfg at id old new mode) (c, w) Now Failed
  unfolding swap_in
  swap_in-Ends mode_atomic c w h =
      let args = qualified_name t id ∷ text new ∷ [] in
      let format : String = "rest: atomic register %s -> %s failed: %w" in
      Ends-context format args (call t register_over) (c, w) Now Failed
        (Ends-weaken (call t register_over) (c, w) Now Now (λ e (d, w'). pointer w' ≡ some old)
          (λ e (d, w'). NotSwapped (some old) (wrapf format args e) (pointer w'))
          (atomic-Ends c w h) (λ u p q. q) (λ e p q. inl q))
  swap_in-Ends mode_drop_register c w h = by_drop-Ends c w h
  swap_in-Ends mode_unknown c w h =
      Ends-bind (call t (attempt register_over)) (after_probe t cfg at id old new) (c, w)
        (λ r (d, w'). (d ≡ c) × Probed r w') Now Failed (probe-Ends c w h)
        (λ r (d, w') (same, q). probed r d w' q)
    where
      probed :
          (r : Result (Unit {0})) (d : Client t) (w' : W)
          → Probed r w'
          → Ends (after_probe t cfg at id old new r) (d, w') Now Failed
      probed (ok u) d w' q = after_probe-Ends (ok u) d w' q
      probed (err e) d w' q = after_probe-Ends (err e) d w' q

  -- The pointer was at the old location and is at the new one.
  abbrev pub Exchanged : Option Bytes → Unit {0} → Client t × W → Type 0
  Exchanged before u (d, w') = (before ≡ some old) × (pointer w' ≡ some new)

  abbrev pub Refused : Option Bytes → Error → Client t × W → Type 0
  Refused before e (d, w') = NotSwapped before e (pointer w')

  swap_loaded-Ends :
      (table : Table) (c : Client t) (w : W) (before : Option Bytes)
      → Started t cfg at c
      → pointer w ≡ before
      → before ≡ some table.metadata_location
      → Ends (swap_loaded t id old new table) (c, w) (Exchanged before) (Refused before)
  unfolding swap_loaded load_mode fail
  swap_loaded-Ends table c w before st h there =
      Ends-if (table.metadata_location == old) _ _ (c, w) (Exchanged before) (Refused before)
        (λ same.
          let was : before ≡ some old =
            there ∙ ap some ((list_beq_iff table.metadata_location old).0 same) in
          Ends-step (init t) _ (c, w) at (c, w) _ _ (init-Started t cfg at c w st)
            (Ends-step (config_of t) _ (c, w) cfg (c, w) _ _ (config_of-Started t cfg at c w st)
              (Ends-step (load_mode t) _ (c, w) c.swap_mode (c, w) _ _ refl
                (Ends-weaken (swap_in t cfg at id old new c.swap_mode) (c, w) Now (Exchanged before)
                  Failed (Refused before) (swap_in-Ends c.swap_mode c w (h ∙ was))
                  (λ u p q. (was, q)) (λ e p q. rw was q)))))
        (λ differs. inl h)

  reload-Ends :
      (c : Client t) (w : W)
      → Started t cfg at c
      → Ends
          (context "rest: pre-swap reload %s: %w" (qualified_name t id ∷ []) (load_table t id))
          (c, w)
          (Loaded t pointer c w)
          (Refused (pointer w))
  reload-Ends c w st =
      let args = qualified_name t id ∷ [] in
      let format : String = "rest: pre-swap reload %s: %w" in
      Ends-context format args (load_table t id) (c, w) (Loaded t pointer c w) (Refused (pointer w))
        (Ends-weaken (load_table t id) (c, w) (Loaded t pointer c w) (Loaded t pointer c w)
          (λ e (d, w'). pointer w' ≡ pointer w)
          (λ e (d, w'). NotSwapped (pointer w) (wrapf format args e) (pointer w'))
          (load_table-Ends t cfg at id pointer s c w st) (λ u p q. q) (λ e p q. inl q))

  reloaded-Ends :
      (c : Client t) (w : W)
      → Started t cfg at c
      → Ends
          (do
            init t
            current ←
                context "rest: pre-swap reload %s: %w" (qualified_name t id ∷ []) (load_table t id)
            swap_loaded t id old new current)
          (c, w)
          (Exchanged (pointer w))
          (Refused (pointer w))
  reloaded-Ends c w st =
      let Q = Exchanged (pointer w) in
      let E = Refused (pointer w) in
      Ends-step (init t) _ (c, w) at (c, w) Q E (init-Started t cfg at c w st)
        (Ends-bind
          (context "rest: pre-swap reload %s: %w" (qualified_name t id ∷ []) (load_table t id))
          (swap_loaded t id old new) (c, w) (Loaded t pointer c w) Q E (reload-Ends c w st)
          (λ table (d, w') (same, kept, there).
            swap_loaded-Ends table d w' (pointer w) (rw same st) kept there))

  -- On a server with the laws of `Serves`, on a client that has been set up, and for two different
  -- locations, a swap that succeeds has found the pointer at the old location and left it at the
  -- new one. A swap that fails has left the pointer as it was, or none where a registration and its
  -- rollback failed, and then the error reports both.
  pub swap_metadata_location-Ends :
      (c : Client t) (w : W)
      → Started t cfg at c
      → old ≢ new
      → Ends
          (swap_metadata_location t id old new)
          (c, w)
          (Exchanged (pointer w))
          (Refused (pointer w))
  unfolding swap_metadata_location fail pure
  swap_metadata_location-Ends c w st ne =
      let Q = Exchanged (pointer w) in
      let E = Refused (pointer w) in
      Ends-if (old == []) _ _ (c, w) Q E (λ _. inl refl)
        (λ _.
          Ends-if (new == []) _ _ (c, w) Q E (λ _. inl refl)
            (λ _.
              Ends-if (old == new) _ _ (c, w) Q E
                (λ same. absurd (ne ((list_beq_iff old new).0 same))) (λ _. reloaded-Ends c w st)))
