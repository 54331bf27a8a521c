-- ===== src/Tss/Network/Frames.antt =====
-- The frames of crates/keymesh-tss/src/network.rs.
use key_mesh.Prelude.{
  ℕ, ◌≤◌, ◌<◌, ◌≡◌, refl, ap, ◌∙◌, List, ◌++◌, length, length-append, arith, take-append,
  drop-append, inl, inr,
}
use key_mesh.Prelude.Bytes.{
  to_be_bytes, from_be_bytes, length-to_be_bytes, from_be_bytes-to_be_bytes,
}
use key_mesh.Prelude.Outcome.{ok, Result-cases}
use key_mesh.Tss.Envelope.{TssEnvelope}
use key_mesh.Tss.Network.{
  Json, Socket, frame_version, max_tss_message_bytes, encode_frame, decode_frame, read_frame,
}

encode_frame-ok :
    (json : Json) (e : TssEnvelope) (bytes : List ℕ)
    → encode_frame json e ≡ ok bytes
    → (json.to_vec (record { version = frame_version; envelope = e }) ≡ ok bytes)
      × (length bytes ≤ max_tss_message_bytes)
unfolding encode_frame
encode_frame-ok json e bytes h =
    elim (Result-cases (json.to_vec (record { version = frame_version; envelope = e }))) [
      | inl (b, p) ↦ (ground arith, ground arith)
      | inr (x, p) ↦ absurd (ground arith)
    ]

decode_frame-encode_frame :
    (json : Json) (e : TssEnvelope) (bytes : List ℕ)
    → encode_frame json e ≡ ok bytes
    → decode_frame json bytes ≡ ok e
unfolding decode_frame
decode_frame-encode_frame json e bytes h =
    let (p, small) = encode_frame-ok json e bytes h in
    let back = json.from_slice-to_vec _ bytes p in rw back (ground arith)

module _ {A C : Type 0} (socket : Socket A C) where
  read_exact-front :
      (c : C) (n : ℕ) (xs ys : List ℕ)
      → length xs ≡ n
      → socket.pending c ≡ xs ++ ys
      → ((socket.read_exact c n).0 ≡ ok xs) × (socket.pending (socket.read_exact c n).1 ≡ ys)
  read_exact-front c n xs ys len arrived =
      let (value, more) =
        socket.read_exact-ready c n (rw arrived (omega (arith, length-append xs ys, len))) in
      (
        value ∙ ap ok (rw (arrived, ← len) (take-append xs ys)),
        more ∙ rw (arrived, ← len) (drop-append xs ys),
      )

  read_frame-steps :
      (json : Json) (c : C) (lb buf : List ℕ) (n : ℕ)
      → (socket.read_exact c 4).0 ≡ ok lb
      → from_be_bytes lb ≡ n
      → 0 < n
      → n ≤ max_tss_message_bytes
      → (socket.read_exact (socket.read_exact c 4).1 n).0 ≡ ok buf
      → read_frame json socket c
        ≡ (decode_frame json buf, (socket.read_exact (socket.read_exact c 4).1 n).1)
  unfolding read_frame
  read_frame-steps json c lb buf n first len pos small second = rw (first, len) (ground arith)

-- A frame that was encoded decodes to its envelope, and is what a reader gets from a connection on
-- which its length and its bytes arrive, with nothing else taken.
pub read_frame-encode_frame :
    {A C : Type 0} (json : Json) (socket : Socket A C) (e : TssEnvelope) (bytes more : List ℕ)
    (c : C)
    → encode_frame json e ≡ ok bytes
    → socket.pending c ≡ to_be_bytes 4 (length bytes) ++ (bytes ++ more)
    → (decode_frame json bytes ≡ ok e)
      × ((read_frame json socket c).0 ≡ ok e)
      × (socket.pending (read_frame json socket c).1 ≡ more)
read_frame-encode_frame json socket e bytes more c h arrived =
    let (p, small) = encode_frame-ok json e bytes h in
    let nonempty = json.to_vec-nonempty _ bytes p in
    let (first, rest) =
      read_exact-front socket c 4 (to_be_bytes 4 (length bytes)) (bytes ++ more)
        (length-to_be_bytes 4 (length bytes)) arrived in
    let len = from_be_bytes-to_be_bytes 4 (length bytes) (omega arith) in
    let (second, rest') =
      read_exact-front socket (socket.read_exact c 4).1 (length bytes) bytes more refl rest in
    let decoded = decode_frame-encode_frame json e bytes h in
    let steps =
      read_frame-steps socket json c (to_be_bytes 4 (length bytes)) bytes (length bytes) first len
        nonempty small second in
    (decoded, rw steps decoded, rw steps rest')
