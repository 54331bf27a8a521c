-- ===== src/Tss/Transport/Checks.antt =====
-- What the checks of crates/keymesh-tss/src/transport.rs accept.
use key_mesh.Prelude.{ℕ, ◌≡◌, ◌≢◌, ◌↔◌, ◌⊎◌, refl, false, List, [], ◌∷◌, All, arith}
use key_mesh.Prelude.Bytes.{bytes_eq_iff}
use key_mesh.Prelude.Outcome.{ok}
use key_mesh.Tss.Transport.{
  TransportMessage, SimulatedTransport, verify_binding, check_no_duplicate, seen_before,
  no_duplicate_after,
}

-- Every message is of the session and the digest that are expected, and of a round from 1 to 5.
abbrev pub IsBound : List ℕ → List ℕ → TransportMessage → Type 0
IsBound session digest m = (m.session_id ≡ session) × (m.digest ≡ digest)

-- `verify_binding` accepts exactly the transports all of whose messages have the expected session and
-- digest.
pub verify_binding_iff :
    (t : SimulatedTransport) (session digest : List ℕ)
    → (verify_binding t session digest ≡ ok tt) ↔ All (IsBound session digest) t
unfolding verify_binding
verify_binding_iff [] session digest = (λ h. tt, λ h. refl)
verify_binding_iff (m ∷ t) session digest =
    let sessions = bytes_eq_iff m.session_id session in
    let digests = bytes_eq_iff m.digest digest in
    let others = verify_binding_iff t session digest in
    (
      λ h. ((sessions.0 (ground arith), digests.0 (ground arith)), others.0 (ground arith)),
      λ h. ground (arith, sessions, digests, others, h.0.0, h.0.1, h.1),
    )

-- No two messages have the same sender and round.
abbrev pub Apart : TransportMessage → TransportMessage → Type 0
Apart m n = (m.sender ≢ n.sender) ⊎ (m.round ≢ n.round)

abbrev pub Distinct : SimulatedTransport → Type 0
Distinct [] = Unit
Distinct (m ∷ t) = All (Apart m) t × Distinct t

seen_cons :
    (a b : ℕ) (seen : List (ℕ × ℕ)) (t : SimulatedTransport)
    → All (λ m. seen_before ((a, b) ∷ seen) m.sender m.round ≡ false) t ↔ (
        All (λ m. (a ≢ m.sender) ⊎ (b ≢ m.round)) t
        × All (λ m. seen_before seen m.sender m.round ≡ false) t)
unfolding seen_before
seen_cons a b seen [] = (λ h. (tt, tt), λ h. tt)
seen_cons a b seen (m ∷ t) =
    let others = seen_cons a b seen t in
    (
      λ h. let (p, q) = others.0 h.1 in ((ground (arith, h.0), p), (ground (arith, h.0), q)),
      λ h. (ground (arith, h.0.0, h.1.0), others.1 (h.0.1, h.1.1)),
    )

after_iff :
    (seen : List (ℕ × ℕ)) (t : SimulatedTransport)
    → (no_duplicate_after seen t ≡ ok tt)
      ↔ (All (λ m. seen_before seen m.sender m.round ≡ false) t × Distinct t)
unfolding no_duplicate_after
after_iff seen [] = (λ h. (tt, tt), λ h. refl)
after_iff seen (m ∷ t) =
    let later = after_iff ((m.sender, m.round) ∷ seen) t in
    let step = seen_cons m.sender m.round seen t in
    (
      λ h.
          let fresh : seen_before seen m.sender m.round ≡ false = ground (arith, h) in
          let more : no_duplicate_after ((m.sender, m.round) ∷ seen) t ≡ ok tt =
            ground (arith, h) in
          let (unseen, distinct) = later.0 more in
          let (apart, before) = step.0 unseen in ((fresh, before), (apart, distinct)),
      λ h. let more = later.1 (step.1 (h.1.0, h.0.1), h.1.1) in ground (arith, more, h.0.0),
    )

unseen : (t : SimulatedTransport) → All (λ m. seen_before [] m.sender m.round ≡ false) t
unfolding seen_before
unseen [] = tt
unseen (m ∷ t) = (refl, unseen t)

-- `check_no_duplicate` accepts exactly the transports in which every two messages differ in the sender or
-- in the round.
pub check_no_duplicate_iff : (t : SimulatedTransport) → (check_no_duplicate t ≡ ok tt) ↔ Distinct t
unfolding check_no_duplicate
check_no_duplicate_iff t = (λ h. ((after_iff [] t).0 h).1, λ h. (after_iff [] t).1 (unseen t, h))
