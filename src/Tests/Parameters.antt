-- ===== src/Tests/Parameters.antt =====
-- Concrete functions in the place of the libraries that the modelled crates call.
use key_mesh.Prelude.{
  ℕ, ◌≤◌, ◌<◌, ◌≡◌, refl, sym, ap, Bool, true, false, List, [], ◌∷◌, ◌++◌, Option, none, some, take,
  drop, length, replicate, arith, ◌==◌, ==_iff, ltb, if◌then◌else◌, leb, ◌&&◌,
}
use key_mesh.Prelude.Bytes.{to_be_bytes, from_be_bytes, bytes_eq, bytes_eq_iff}
use key_mesh.Prelude.Keccak.{Keccak}
use key_mesh.Prelude.Outcome.{Result, ok, err}
use key_mesh.Prelude.Text.{Str}
use key_mesh.Tss.Errors.{TssError, rotation_failed}
use key_mesh.Tss.Key.{ThresholdKeyMaterial, Protocols}
use key_mesh.Tss.Envelope.{Ecdsa, TssEnvelope}
use key_mesh.Tss.Network.{Json, Socket, FramedEnvelope}
use key_mesh.Tss.Interactive.{SigningProtocols, curve_order}

-- A hash with 32 zero bytes for every message: every pair of messages collides.
abbrev pub constant_hash : Keccak
constant_hash = record {
  hash = λ _. replicate 32 0;
  length-hash = λ _. refl;
  hash-IsByte = λ _. omega arith;
}

-- A key is a number, and so is what a participant holds; the key is 5, and rotations fail on seed 0.
abbrev pub material_of : ℕ → ℕ → ThresholdKeyMaterial ℕ ℕ
material_of held threshold = record {
  participants =
      record { index = 0; holding = held }
      ∷ record { index = 1; holding = held }
      ∷ record { index = 2; holding = held }
      ∷ [];
  group_public_key = record { verifying_key = 5; ethereum_address = replicate 20 5 };
  threshold = threshold;
  total = 3;
}

pub refresh_keeps :
    (m m' : ThresholdKeyMaterial ℕ ℕ)
    → ◌≡◌ {A = Result (ThresholdKeyMaterial ℕ ℕ) TssError} (ok (record m { total = 3 })) (ok m')
    → m'.threshold ≡ m.threshold
refresh_keeps m m' e = ground (arith, e)

abbrev pub simulated : Protocols ℕ ℕ ℕ
simulated = record {
  key_eq = ◌==◌;
  key_eq_iff = ==_iff;
  encoded_point = λ k compressed. replicate 33 k;
  setup_2of3 = λ seed. ok (material_of seed 2);
  refresh_via_resharing = λ seed m. ok (record m { total = 3 });
  rotation_via_resharing =
      λ seed m members t. if seed == 0 then err (rotation_failed []) else ok (material_of seed t);
  refresh_threshold = λ seed m m' e. refresh_keeps m m' e;
}

-- A signature is empty and always accepted.
abbrev pub trusting : Ecdsa ℕ ℕ (Unit {0})
trusting = record {
  verifying_key = λ x. x;
  sign = λ x m. tt;
  to_vec = λ s. [];
  from_slice = λ bytes. some tt;
  accepts = λ k m s. true;
  from_slice-to_vec = λ s. refl;
  accepts-sign = λ x m. refl;
}

abbrev pub scalar_of : List ℕ → Option ℕ
scalar_of bytes =
    if leb (from_be_bytes curve_order) (from_be_bytes bytes)
    then none
    else some (from_be_bytes bytes)

pub scalar_of-order :
    (bytes : List ℕ) → from_be_bytes curve_order ≤ from_be_bytes bytes → scalar_of bytes ≡ none
scalar_of-order bytes h = ground (arith, h)

-- Shares run to `r` and `s` that are given, and every signature recovers the key 5.
abbrev pub signing_with : List ℕ → SigningProtocols ℕ ℕ ℕ ℕ
signing_with s = record {
  key_eq = ◌==◌;
  Verifier = ℕ;
  Signer = ℕ;
  KeyShare = ℕ;
  AuxSubset = ℕ;
  Session = ℕ;
  Signature = Unit {0};
  verifier_eq = ◌==◌;
  verifier_lt = ltb;
  verifier = λ held. held;
  signer = λ held. held;
  to_key_share = λ held verifiers. ok held;
  subset = λ held verifiers. ok held;
  new_signing = λ message share aux. ok share;
  run_signing = λ seed points. ok (ok ((0, tt) ∷ (1, tt) ∷ []));
  to_backend = λ sig. (replicate 32 1 ++ s, 0);
  from_repr = scalar_of;
  minus = λ a b. a;
  to_bytes = λ a. to_be_bytes 32 a;
  recover = λ digest r s recovery. some 5;
  from_repr-order = scalar_of-order;
}

-- The one envelope that the simulated JSON can write.
abbrev pub sample : TssEnvelope
sample = record {
  protocol_version = b'v' ∷ [];
  session_id = replicate 32 1;
  wallet = replicate 20 2;
  chain_id = 31_337;
  participant_id = 1;
  round = 1;
  message_type = b'm' ∷ [];
  digest = replicate 32 3;
  payload = 9 ∷ [];
  signature = some [];
}

signature_empty : Option (List ℕ) → Bool
signature_empty none = false
signature_empty (some s) = length s == 0

is_sample : FramedEnvelope → Bool
unfolding signature_empty
is_sample f =
    f.version == 1
    && (bytes_eq f.envelope.protocol_version sample.protocol_version
        && (bytes_eq f.envelope.session_id sample.session_id
            && (bytes_eq f.envelope.wallet sample.wallet
                && (f.envelope.chain_id == 31_337
                    && (f.envelope.participant_id == 1
                        && (f.envelope.round == 1
                            && (bytes_eq f.envelope.message_type sample.message_type
                                && (bytes_eq f.envelope.digest sample.digest
                                    && (bytes_eq f.envelope.payload sample.payload
                                        && signature_empty f.envelope.signature)))))))))

signature_empty-some : (s : Option (List ℕ)) → signature_empty s ≡ true → s ≡ some []
unfolding signature_empty
signature_empty-some s h = ground (arith, h)

is_sample-same :
    (f : FramedEnvelope) → is_sample f ≡ true → f ≡ record { version = 1; envelope = sample }
unfolding is_sample
is_sample-same f h =
    let e = f.envelope in
    let protocol_version : e.protocol_version ≡ sample.protocol_version =
      (bytes_eq_iff _ _).0 (ground (arith, h)) in
    let session_id : e.session_id ≡ sample.session_id = (bytes_eq_iff _ _).0 (ground (arith, h)) in
    let wallet : e.wallet ≡ sample.wallet = (bytes_eq_iff _ _).0 (ground (arith, h)) in
    let message_type : e.message_type ≡ sample.message_type =
      (bytes_eq_iff _ _).0 (ground (arith, h)) in
    let digest : e.digest ≡ sample.digest = (bytes_eq_iff _ _).0 (ground (arith, h)) in
    let payload : e.payload ≡ sample.payload = (bytes_eq_iff _ _).0 (ground (arith, h)) in
    let version : f.version ≡ 1 = ground (arith, h) in
    let chain_id : e.chain_id ≡ 31_337 = ground (arith, h) in
    let participant_id : e.participant_id ≡ 1 = ground (arith, h) in
    let round : e.round ≡ 1 = ground (arith, h) in
    let signature : e.signature ≡ some [] = signature_empty-some e.signature (ground (arith, h)) in
    λ i. record {
      version = version i;
      envelope = record {
        protocol_version = protocol_version i;
        session_id = session_id i;
        wallet = wallet i;
        chain_id = chain_id i;
        participant_id = participant_id i;
        round = round i;
        message_type = message_type i;
        digest = digest i;
        payload = payload i;
        signature = signature i;
      };
    }

unfoldable pub json_write : FramedEnvelope → Result (List ℕ) Str
unfolding is_sample
json_write f = if is_sample f then ok (b'{' ∷ b'}' ∷ []) else err []

pub json_write-length :
    (f : FramedEnvelope) (bytes : List ℕ) → json_write f ≡ ok bytes → 0 < length bytes
unfolding json_write
json_write-length f bytes h = ground (arith, h)

pub json_write-back :
    (f : FramedEnvelope) (bytes : List ℕ)
    → json_write f ≡ ok bytes
    → ◌≡◌ {A = Result FramedEnvelope Str} (ok (record { version = 1; envelope = sample })) (ok f)
unfolding json_write
json_write-back f bytes h = ap ok (sym (is_sample-same f (ground (arith, h))))

abbrev pub one_frame_json : Json
one_frame_json = record {
  to_vec = json_write;
  from_slice = λ bytes. ok (record { version = 1; envelope = sample });
  to_vec-nonempty = json_write-length;
  from_slice-to_vec = json_write-back;
}

-- A connection is what has arrived on it.
abbrev pub read_arrived : List ℕ → ℕ → Result (List ℕ) Str × List ℕ
read_arrived c n = if leb n (length c) then (ok (take n c), drop n c) else (err [], c)

pub read_arrived-ready :
    (c : List ℕ) (n : ℕ)
    → n ≤ length c
    → ((read_arrived c n).0 ≡ ok (take n c)) × ((read_arrived c n).1 ≡ drop n c)
read_arrived-ready c n h = (ground (arith, h), ground (arith, h))

abbrev pub loopback : Socket ℕ (List ℕ)
loopback = record {
  dial = λ a. ok [];
  accept = λ a. ok [];
  write_all = λ c bytes. (ok tt, c ++ bytes);
  read_exact = read_arrived;
  pending = λ c. c;
  read_exact-ready = read_arrived-ready;
}
