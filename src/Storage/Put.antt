-- ===== src/Storage/Put.antt =====
-- When `putAndVerify` succeeds, and what it leaves alone.
use bergrebase.Base.{
  ==_refl, >>=-eq-ok, >>=-of_ok, Bool-cases, Bytes, Ensures-bind, Ensures-context, Ensures-fail,
  Ensures-if, Ensures-pure, Keeps, context-eq-ok, context-of_ok, fail, inl, inr, int_beq_iff,
  int_eq, length, list_eq, nat_eq, ok, pos, pure, pure-eq-ok, ℤ, ◌==◌, ◌↔◌, ◌∙◌, ◌≡◌,
}
use bergrebase.Storage.{Storage, check_size, put_and_verify}

-- What a verified PUT is made of.
abbrev pub Verified : {W : Type 0} → Storage W → Bytes → Bytes → W → W → Type 0
Verified {W} target uri body w w' =
    (between : W) × (target.put_object uri body w ≡ (ok tt, between))
    × (target.head_object uri between ≡ (ok (pos (length body)), w'))

module _ {W : Type 0} (uri body : Bytes) where
  check_size-eq-ok :
      (size : ℤ) (w w' : W)
      → check_size uri body size w ≡ (ok tt, w')
      → (size ≡ pos (length body)) × (w ≡ w')
  unfolding check_size
  check_size-eq-ok size w w' h = elim (Bool-cases (size == pos (length body))) [
    | inl same ↦
        ((int_beq_iff size (pos (length body))).0 same, (pure-eq-ok tt w tt w' (rw same at h)).1)
    | inr differs ↦ absurd (unfold fail in cc (rw differs at h))
  ]

  check_size_same : (w : W) → check_size uri body (pos (length body)) w ≡ (ok tt, w)
  unfolding check_size pure
  check_size_same w = rw (==_refl (pos (length body)))

module _ {W : Type 0} (target : Storage W) (uri body : Bytes) where
  put_and_verify_sound :
      (w w' : W) → put_and_verify target uri body w ≡ (ok tt, w') → Verified target uri body w w'
  unfolding put_and_verify
  put_and_verify_sound w w' h =
      let (_, between, put_ok, rest) = >>=-eq-ok _ _ w tt w' h in
      let (size, after, head_ok, checked) = >>=-eq-ok _ _ between tt w' rest in
      let (same, stays) = check_size-eq-ok uri body size after w' checked in
      (
        between,
        context-eq-ok _ _ (target.put_object uri body) w tt between put_ok,
        rw (← same, ← stays)
            (context-eq-ok _ _ (target.head_object uri) between size after head_ok),
      )

  put_and_verify_complete :
      (w w' : W) → Verified target uri body w w' → put_and_verify target uri body w ≡ (ok tt, w')
  unfolding put_and_verify
  put_and_verify_complete w w' (between, put_ok, head_ok) =
      >>=-of_ok _ _ w (context-of_ok _ _ _ w put_ok)
      ∙ >>=-of_ok _ _ between (context-of_ok _ _ _ between head_ok)
      ∙ check_size_same uri body w'

  -- `putAndVerify` succeeds exactly if the PUT does and the HEAD after it reports the length of
  -- the body that was written.
  pub put_and_verify-eq-ok :
      (w w' : W) → (put_and_verify target uri body w ≡ (ok tt, w')) ↔ Verified target uri body w w'
  put_and_verify-eq-ok w w' = (put_and_verify_sound w w', put_and_verify_complete w w')

  pub put_and_verify-Keeps :
      {P : W → Type 0}
      → Keeps P (target.put_object uri body)
      → Keeps P (target.head_object uri)
      → Keeps P (put_and_verify target uri body)
  unfolding put_and_verify
  put_and_verify-Keeps hp hh = Ensures-bind _ _ (Ensures-context _ _ _ hp) λ _ _.
      Ensures-bind _ _ (Ensures-context _ _ _ hh) λ size _.
        Ensures-if (size == pos (length body)) _ _ (λ _. Ensures-pure tt tt) (λ _. Ensures-fail _)
