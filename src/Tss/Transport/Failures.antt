-- ===== src/Tss/Transport/Failures.antt =====
-- What the checks of crates/keymesh-tss/src/transport.rs say of the failures that it simulates.
use key_mesh.Prelude.{ℕ, ◌≡◌, ◌≢◌, refl, sym, List, [], ◌∷◌, ◌++◌, All, Bool-cases, inl, inr, ◌==◌}
use key_mesh.Prelude.Outcome.{ok}
use key_mesh.Tss.Transport.{
  TransportMessage, SimulatedTransport, verify_binding, check_no_duplicate, drop_from,
  duplicate_first, reorder, modify_first_digest,
}
use key_mesh.Tss.Transport.Checks.{
  IsBound, Apart, Distinct, verify_binding_iff, check_no_duplicate_iff,
}

drop_from-All :
    (P : TransportMessage → Type 0) (t : SimulatedTransport) (sender : ℕ)
    → All P t
    → All P (drop_from t sender)
unfolding drop_from
drop_from-All P [] sender h = tt
drop_from-All P (m ∷ t) sender h = elim (Bool-cases (m.sender == sender)) [
  | inl e ↦ rw e (drop_from-All P t sender h.1)
  | inr e ↦ rw e (h.0, drop_from-All P t sender h.1)
]

drop_from-Distinct :
    (t : SimulatedTransport) (sender : ℕ) → Distinct t → Distinct (drop_from t sender)
unfolding drop_from
drop_from-Distinct [] sender h = tt
drop_from-Distinct (m ∷ t) sender h = elim (Bool-cases (m.sender == sender)) [
  | inl e ↦ rw e (drop_from-Distinct t sender h.1)
  | inr e ↦ rw e (drop_from-All (Apart m) t sender h.0, drop_from-Distinct t sender h.1)
]

reorder-All : (P : TransportMessage → Type 0) (t : SimulatedTransport) → All P t → All P (reorder t)
unfolding reorder
reorder-All P [] h = tt
reorder-All P (m ∷ []) h = h
reorder-All P (m ∷ n ∷ t) h = (h.1.0, (h.0, h.1.1))

Apart-sym : (m n : TransportMessage) → Apart m n → Apart n m
Apart-sym m n (inl h) = inl (λ e. h (sym e))
Apart-sym m n (inr h) = inr (λ e. h (sym e))

reorder-Distinct : (t : SimulatedTransport) → Distinct t → Distinct (reorder t)
unfolding reorder
reorder-Distinct [] h = tt
reorder-Distinct (m ∷ []) h = h
reorder-Distinct (m ∷ n ∷ t) h = ((Apart-sym m n h.0.0, h.1.0), (h.0.1, h.1.1))

-- A transport that passes both checks still passes them after messages of one sender are dropped and
-- after the first two are swapped.
pub benign-passes :
    (t : SimulatedTransport) (session digest : List ℕ) (sender : ℕ)
    → verify_binding t session digest ≡ ok tt
    → check_no_duplicate t ≡ ok tt
    → (verify_binding (drop_from t sender) session digest ≡ ok tt)
      × (check_no_duplicate (drop_from t sender) ≡ ok tt)
      × (verify_binding (reorder t) session digest ≡ ok tt)
      × (check_no_duplicate (reorder t) ≡ ok tt)
benign-passes t session digest sender b d =
    let bound = (verify_binding_iff t session digest).0 b in
    let distinct = (check_no_duplicate_iff t).0 d in
    (
      (verify_binding_iff (drop_from t sender) session digest).1
          (drop_from-All (IsBound session digest) t sender bound),
      (check_no_duplicate_iff (drop_from t sender)).1 (drop_from-Distinct t sender distinct),
      (verify_binding_iff (reorder t) session digest).1
          (reorder-All (IsBound session digest) t bound),
      (check_no_duplicate_iff (reorder t)).1 (reorder-Distinct t distinct),
    )

All-last :
    (P : TransportMessage → Type 0) (t : SimulatedTransport) (m : TransportMessage)
    → All P (t ++ (m ∷ []))
    → P m
All-last P [] m h = h.0
All-last P (n ∷ t) m h = All-last P t m h.1

-- A duplicated message is found, and so is a digest that was changed to another than the expected one.
pub tampering-detected :
    (m : TransportMessage) (t : SimulatedTransport) (session digest other : List ℕ)
    → other ≢ digest
    → (check_no_duplicate (duplicate_first (m ∷ t)) ≢ ok tt)
      × (verify_binding (modify_first_digest (m ∷ t) other) session digest ≢ ok tt)
unfolding duplicate_first modify_first_digest
tampering-detected m t session digest other differs = (
  λ h.
      let distinct = (check_no_duplicate_iff ((m ∷ t) ++ (m ∷ []))).0 h in
      elim (All-last (Apart m) t m distinct.0) [ inl e ↦ e refl | inr e ↦ e refl ],
  λ h. differs ((verify_binding_iff (record m { digest = other } ∷ t) session digest).0 h).0.1,
)
