-- ===== src/Core/Signing/Tss/Sessions.antt =====
-- The status of a signing session in crates/keymesh-core/src/signing/tss.rs.
use key_mesh.Prelude.{◌≡◌, ◌≢◌, ◌↔◌, false, arith}
use key_mesh.Prelude.Outcome.{ok, is_ok}
use key_mesh.Core.Signing.Tss.{SigningSession, SigningSessionStatus, started, transition}

-- A transition succeeds exactly from `started` to another status, and changes the status alone.
pub transition_iff :
    (s s' : SigningSession) (next : SigningSessionStatus)
    → (transition s next ≡ ok s')
      ↔ ((s.status ≡ started) × (next ≢ started) × (s' ≡ record s { status = next }))
unfolding transition
transition_iff s s' next = (λ h. ground arith, λ h. ground arith)

-- So a session has at most one transition.
pub transition_once :
    (s s' : SigningSession) (next later : SigningSessionStatus)
    → transition s next ≡ ok s'
    → is_ok (transition s' later) ≡ false
unfolding transition
transition_once s s' next later h = ground arith
