-- ===== src/Tss/Network/Reception.antt =====
-- What a TCP transport of crates/keymesh-tss/src/network.rs lets through.
use key_mesh.Prelude.{
  ◌<◌, ◌≡◌, refl, ap, ◌∙◌, true, Option, none, some, Option-cases, Bool-cases, inl, inr, arith,
}
use key_mesh.Prelude.Outcome.{ok, Result-cases}
use key_mesh.Tss.Envelope.{
  TssEnvelope, ParticipantIdentity, Ecdsa, verify_envelope, validate_against,
}
use key_mesh.Tss.Envelope.Binding.{validate_against_iff}
use key_mesh.Tss.Network.{
  Json, Socket, TcpAuthenticatedTransport, SessionContext, check_session, check_peer, receive,
  read_frame,
}

-- The envelope belongs to the session, where one is expected.
abbrev pub InSession : Option SessionContext → TssEnvelope → Type 0
InSession none e = Unit
InSession (some ctx) e =
    (e.session_id ≡ ctx.session)
    × (e.wallet ≡ ctx.wallet)
    × (e.chain_id ≡ ctx.chain)
    × (0 < e.round)
    × (e.round < 11)

check_session-ok :
    (x : Option SessionContext) (e : TssEnvelope) → check_session x e ≡ ok tt → InSession x e
unfolding check_session
check_session-ok none e h = tt
check_session-ok (some ctx) e h =
    let accepted : validate_against e ctx.session ctx.wallet ctx.chain e.digest e.protocol_version
        ≡ ok tt =
      ground (arith, h) in
    let (session, wallet, chain, digest, version, low, high) =
      (validate_against_iff e ctx.session ctx.wallet ctx.chain e.digest e.protocol_version).0
        accepted in
    (session, wallet, chain, low, high)

module _ {A C K X S : Type 0} (json : Json) (socket : Socket A C) (ecdsa : Ecdsa K X S) where
  check_peer-ok :
      (p : Option (ParticipantIdentity K)) (x : Option SessionContext) (e env : TssEnvelope)
      → check_peer json socket ecdsa p x e ≡ ok env
      → (e ≡ env)
        × ((peer : ParticipantIdentity K) × (p ≡ some peer)
            × (verify_envelope ecdsa peer env ≡ true))
        × InSession x env
  unfolding check_peer
  check_peer-ok none x e env h = absurd (ground (arith, h))
  check_peer-ok (some peer) x e env h = elim (Result-cases (check_session x e)) [
    | inl (u, inside) ↦
        let same : e ≡ env = ground (arith, h) in
        let bound = check_session-ok x e inside in
        rw (← same) (refl, (peer, refl, ground (arith, h)), bound)
    | inr (y, outside) ↦ absurd (ground (arith, h))
  ]

  -- What `receive` returns was read from the connection of an authenticated transport, verifies under
  -- the peer's identity, and belongs to the expected session, wallet and chain with a round from 1 to 10
  -- where a session is expected.
  pub receive-authentic :
      (t : TcpAuthenticatedTransport A C K) (env : TssEnvelope)
      → (receive json socket ecdsa t).0 ≡ ok env
      → (t.authenticated ≡ true)
        × ((c : C) × (t.stream ≡ some c) × ((read_frame json socket c).0 ≡ ok env))
        × ((peer : ParticipantIdentity K) × (t.peer_identity ≡ some peer)
            × (verify_envelope ecdsa peer env ≡ true))
        × InSession t.expected_session env
  unfolding receive
  receive-authentic t env h = elim (Bool-cases t.authenticated) [
    | inr out ↦ absurd (ground arith)
    | inl inside ↦ elim (Option-cases t.stream) [
      | inl closed ↦ absurd (ground arith)
      | inr (c, open_c) ↦ elim (Result-cases (read_frame json socket c).0) [
        | inr (x, failed) ↦ absurd (ground arith)
        | inl (e, read) ↦
            let accepted : check_peer json socket ecdsa t.peer_identity t.expected_session e
                ≡ ok env =
              ground arith in
            let (same, peer, bound) =
              check_peer-ok t.peer_identity t.expected_session e env accepted in
            (inside, (c, open_c, read ∙ ap ok same), peer, bound)
      ]
    ]
  ]
