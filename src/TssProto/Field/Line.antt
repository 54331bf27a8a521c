-- ===== src/TssProto/Field/Line.antt =====
-- Two points of a line over the scalars give its value at zero.
use key_mesh.Prelude.{◌≡◌, ◌≢◌, sym, ap, ◌∙◌}
use mathlib.Core.Path.{◌≡⟨◌⟩◌, ◌∎}
use key_mesh.TssProto.Field.{Scalar, ◌⊕◌, ◌⊖◌, ◌⊗◌}

module _ {F : Type 0} ⦃f : Scalar F⦄ where
  open f use {
    zero, one, neg, add_assoc, add_comm, zero-add, neg-add, sub-add, mul_assoc, mul_comm, one-mul,
    mul-add,
  }

  add-zero : (a : F) → a ⊕ zero ≡ a
  add-zero a = rw (add_comm a) (zero-add a)

  add_cancel : (a b c : F) → a ⊕ b ≡ a ⊕ c → b ≡ c
  add_cancel a b c h =
      sym (zero-add b)
      ∙ (ap (λ z. z ⊕ b) (sym (neg-add a))
          ∙ (add_assoc _ _ _
              ∙ (ap (λ y. neg a ⊕ y) h
                  ∙ (sym (add_assoc _ _ _) ∙ (ap (λ z. z ⊕ c) (neg-add a) ∙ zero-add c)))))

  mul-zero : (a : F) → a ⊗ zero ≡ zero
  mul-zero a =
      add_cancel (a ⊗ zero) (a ⊗ zero) zero
        (sym (mul-add a zero zero) ∙ (ap (λ z. a ⊗ z) (zero-add zero) ∙ sym (add-zero _)))

  add_left_comm : (a b c : F) → a ⊕ (b ⊕ c) ≡ b ⊕ (a ⊕ c)
  add_left_comm a b c = rw (← add_assoc a b c, add_comm a b, add_assoc b a c)

  mul_left_comm : (a b c : F) → a ⊗ (b ⊗ c) ≡ b ⊗ (a ⊗ c)
  mul_left_comm a b c = rw (← mul_assoc a b c, mul_comm a b, mul_assoc b a c)

  pub add-mul : (a b c : F) → (a ⊕ b) ⊗ c ≡ a ⊗ c ⊕ b ⊗ c
  add-mul a b c = rw (mul_comm (a ⊕ b) c, mul_comm a c, mul_comm b c) (mul-add c a b)

  neg-mul : (a b : F) → neg a ⊗ b ⊕ a ⊗ b ≡ zero
  neg-mul a b =
      sym (add-mul (neg a) a b) ∙ (ap (λ z. z ⊗ b) (neg-add a) ∙ (mul_comm zero b ∙ mul-zero b))

  sub-sub : (x y : F) → (x ⊖ y) ⊕ (y ⊖ x) ≡ zero
  sub-sub x y = add_cancel x _ _ (
      x ⊕ ((x ⊖ y) ⊕ (y ⊖ x))
      ≡⟨ (simp (add_comm, add_left_comm)) ⟩ (x ⊖ y) ⊕ ((y ⊖ x) ⊕ x)
      ≡⟨ ap (λ z. (x ⊖ y) ⊕ z) (sub-add y x) ⟩ (x ⊖ y) ⊕ y
      ≡⟨ sub-add x y ⟩ x
      ≡⟨ sym (add-zero x) ⟩ x ⊕ zero ∎)

  -- The inverses of two opposite scalars are opposite.
  inverse_opposite : (d e p q : F) → d ⊕ e ≡ zero → d ⊗ p ≡ one → e ⊗ q ≡ one → q ⊕ p ≡ zero
  inverse_opposite d e p q opposite dp eq =
      q ⊕ p
      ≡⟨ ap (λ z. z ⊕ p) (sym (one-mul q) ∙ ap (λ z. z ⊗ q) (sym dp)) ⟩ d ⊗ p ⊗ q ⊕ p
      ≡⟨ ap (λ z. d ⊗ p ⊗ q ⊕ z) (sym (one-mul p) ∙ ap (λ z. z ⊗ p) (sym eq)) ⟩
        d ⊗ p ⊗ q ⊕ e ⊗ q ⊗ p
      ≡⟨ (simp (mul_assoc, mul_comm)) ⟩ d ⊗ (p ⊗ q) ⊕ e ⊗ (p ⊗ q)
      ≡⟨ sym (add-mul d e (p ⊗ q)) ⟩ (d ⊕ e) ⊗ (p ⊗ q)
      ≡⟨ ap (λ z. z ⊗ (p ⊗ q)) opposite ⟩ zero ⊗ (p ⊗ q)
      ≡⟨ mul_comm _ _ ∙ mul-zero _ ⟩ zero ∎

  -- A line through `(x, s + a * x)` and `(y, s + a * y)`, interpolated at zero with the inverses of the
  -- two differences.
  pub at_zero :
      (s a x y p q : F)
      → (x ⊖ y) ⊗ p ≡ one
      → (y ⊖ x) ⊗ q ≡ one
      → (neg y ⊗ p) ⊗ (s ⊕ a ⊗ x) ⊕ (neg x ⊗ q) ⊗ (s ⊕ a ⊗ y) ≡ s
  at_zero s a x y p q hp hq =
      (neg y ⊗ p) ⊗ (s ⊕ a ⊗ x) ⊕ (neg x ⊗ q) ⊗ (s ⊕ a ⊗ y)
      ≡⟨ ap (λ z. (neg y ⊗ p) ⊗ z ⊕ (neg x ⊗ q) ⊗ yb) other_share ⟩
        (neg y ⊗ p) ⊗ (yb ⊕ a ⊗ (x ⊖ y)) ⊕ (neg x ⊗ q) ⊗ yb
      ≡⟨ ap (λ z. (neg y ⊗ p) ⊗ (yb ⊕ a ⊗ (x ⊖ y)) ⊕ z ⊗ yb) other_weight ⟩
        (neg y ⊗ p) ⊗ (yb ⊕ a ⊗ (x ⊖ y)) ⊕ (one ⊕ y ⊗ p) ⊗ yb
      ≡⟨ (rw (mul-add (neg y ⊗ p) yb (a ⊗ (x ⊖ y)), add-mul one (y ⊗ p) yb, one-mul yb)) ⟩
        ((neg y ⊗ p) ⊗ yb ⊕ (neg y ⊗ p) ⊗ (a ⊗ (x ⊖ y))) ⊕ (yb ⊕ (y ⊗ p) ⊗ yb)
      ≡⟨ (simp (add_assoc, add_comm, add_left_comm)) ⟩
        ((neg y ⊗ p) ⊗ yb ⊕ (y ⊗ p) ⊗ yb) ⊕ (yb ⊕ (neg y ⊗ p) ⊗ (a ⊗ (x ⊖ y)))
      ≡⟨ ap (λ z. z ⊕ (yb ⊕ (neg y ⊗ p) ⊗ (a ⊗ (x ⊖ y)))) vanishing ∙ zero-add _ ⟩
        yb ⊕ (neg y ⊗ p) ⊗ (a ⊗ (x ⊖ y))
      ≡⟨ (simp (mul_assoc, mul_comm, mul_left_comm)) ⟩ yb ⊕ (neg y ⊗ a) ⊗ ((x ⊖ y) ⊗ p)
      ≡⟨ ap (λ z. yb ⊕ (neg y ⊗ a) ⊗ z) hp ⟩ yb ⊕ (neg y ⊗ a) ⊗ one
      ≡⟨ ap (λ z. yb ⊕ z) (mul_comm _ _ ∙ one-mul _) ∙ add_assoc _ _ _ ⟩ s ⊕ (a ⊗ y ⊕ neg y ⊗ a)
      ≡⟨ ap (λ z. s ⊕ z) (add_comm _ _ ∙ (ap (λ z. neg y ⊗ a ⊕ z) (mul_comm a y) ∙ neg-mul y a)) ⟩
        s ⊕ zero
      ≡⟨ add-zero s ⟩ s ∎
    where
      yb : F
      yb = s ⊕ a ⊗ y

      other_share : s ⊕ a ⊗ x ≡ yb ⊕ a ⊗ (x ⊖ y)
      other_share =
          ap (λ z. s ⊕ a ⊗ z) (sym (sub-add x y))
          ∙ (ap (λ z. s ⊕ z) (mul-add a (x ⊖ y) y ∙ add_comm _ _) ∙ sym (add_assoc _ _ _))

      -- The second weight is `x / (x - y)`.
      other_weight : neg x ⊗ q ≡ one ⊕ y ⊗ p
      other_weight = add_cancel (neg x ⊗ p) _ _ (
          neg x ⊗ p ⊕ neg x ⊗ q
          ≡⟨ sym (mul-add (neg x) p q) ∙ ap (λ z. neg x ⊗ z) (add_comm p q) ⟩ neg x ⊗ (q ⊕ p)
          ≡⟨ ap (λ z. neg x ⊗ z) (inverse_opposite _ _ p q (sub-sub x y) hp hq) ∙ mul-zero _ ⟩ zero
          ≡⟨ sym (neg-mul x p) ⟩ neg x ⊗ p ⊕ x ⊗ p
          ≡⟨ ap (λ z. neg x ⊗ p ⊕ z ⊗ p) (sym (sub-add x y)) ⟩ neg x ⊗ p ⊕ ((x ⊖ y) ⊕ y) ⊗ p
          ≡⟨ ap (λ z. neg x ⊗ p ⊕ z) (add-mul _ _ _ ∙ ap (λ z. z ⊕ y ⊗ p) hp) ⟩
            neg x ⊗ p ⊕ (one ⊕ y ⊗ p) ∎)

      vanishing : (neg y ⊗ p) ⊗ yb ⊕ (y ⊗ p) ⊗ yb ≡ zero
      vanishing =
          sym (add-mul _ _ _) ∙ (ap (λ z. z ⊗ yb) (neg-mul y p) ∙ (mul_comm zero yb ∙ mul-zero yb))

  pub sub-nonzero : (x y : F) → x ≢ y → x ⊖ y ≢ zero
  sub-nonzero x y distinct e = distinct (sym (sub-add x y) ∙ (ap (λ z. z ⊕ y) e ∙ zero-add y))

  pub mul-zero_left : (a : F) → zero ⊗ a ≡ zero
  mul-zero_left a = mul_comm zero a ∙ mul-zero a

  -- The values of two lines at `j`, added.
  pub add_lines : (c d a b j : F) → (c ⊕ d ⊗ j) ⊕ (a ⊕ b ⊗ j) ≡ (c ⊕ a) ⊕ (d ⊕ b) ⊗ j
  add_lines c d a b j = rw (add-mul d b j) (simp (add_assoc, add_left_comm))
