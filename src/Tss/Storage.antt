-- ===== src/Tss/Storage.antt =====
-- crates/keymesh-tss/src/storage.rs: shares at rest, encrypted.
--
-- The file system is a state, of which `std::fs` reads and writes whole files; an error of it is a text. A
-- path is a text. The nonce that `OsRng` draws is an argument. The permissions that `store` sets, whose
-- result it ignores, are not modelled.
pub mod AtRest
use key_mesh.Prelude.{
  ℕ, ◌≡◌, ◌≢◌, Bool, true, false, not, List, [], ◌++◌, Option, none, some, ltb, if◌then◌else◌,
  length, take, drop, replicate,
}
use key_mesh.Prelude.Text.{Str, text, decimal}
use key_mesh.Prelude.Outcome.{Result, ok, err, is_ok}

pub data StorageError : Type 0 where
  io crypto permission : Str → StorageError

-- `std::fs` on a state `Fs`: what is written is read back, other files stay, and where a file is removed
-- nothing is read.
pub record FileSystem (Fs : Type 0) : Type 0 where
  pub write : Fs → Str → List ℕ → Result (Unit {0}) Str × Fs
  pub read : Fs → Str → Result (List ℕ) Str
  pub remove_file : Fs → Str → Result (Unit {0}) Str × Fs
  pub exists : Fs → Str → Bool
  pub metadata_len : Fs → Str → Result ℕ Str
  pub read-write :
      (fs : Fs) (path : Str) (bytes : List ℕ)
      → (write fs path bytes).0 ≡ ok tt
      → read (write fs path bytes).1 path ≡ ok bytes
  pub read-write_other :
      (fs : Fs) (path other : Str) (bytes : List ℕ)
      → path ≢ other
      → read (write fs path bytes).1 other ≡ read fs other
  pub read-remove_other :
      (fs : Fs) (path other : Str)
      → path ≢ other
      → read (remove_file fs path).1 other ≡ read fs other
  pub read-exists : (fs : Fs) (path : Str) → exists fs path ≡ false → is_ok (read fs path) ≡ false
  pub read-remove :
      (fs : Fs) (path : Str)
      → (remove_file fs path).0 ≡ ok tt
      → is_ok (read (remove_file fs path).1 path) ≡ false

-- ChaCha20Poly1305 under a key that SHA-256 makes of a passphrase, and the file paths of a directory.
pub record Custody (Key : Type 0) : Type 0 where
  pub derive_key : Str → Key
  pub encrypt : Key → (nonce plaintext : List ℕ) → Result (List ℕ) Str
  pub decrypt : Key → (nonce ciphertext : List ℕ) → Result (List ℕ) Str
  pub join : Str → Str → Str
  pub decrypt-encrypt :
      (key : Key) (nonce plaintext ciphertext : List ℕ)
      → encrypt key nonce plaintext ≡ ok ciphertext
      → decrypt key nonce ciphertext ≡ ok plaintext
  pub join_inj : (directory a b : Str) → join directory a ≡ join directory b → a ≡ b

pub record EncryptedShareStore (Key : Type 0) : Type 0 where
  pub path : Str
  pub key : Key

module _ {Key Fs : Type 0} (custody : Custody Key) (files : FileSystem Fs) where
  unfoldable pub new_store : Str → Str → EncryptedShareStore Key
  new_store path passphrase = record { path = path; key = custody.derive_key passphrase }

  unfoldable pub path_for : EncryptedShareStore Key → ℕ → Str
  path_for store id = custody.join store.path (text "share-" ++ (decimal id ++ text ".enc"))

  abbrev written : Result (Unit {0}) Str × Fs → Result (Unit {0}) StorageError × Fs
  written (ok _, fs) = (ok tt, fs)
  written (err e, fs) = (err (io e), fs)

  unfoldable pub store_share :
      EncryptedShareStore Key
      → Fs
      → (nonce : List ℕ) (participant_id : ℕ) (bytes : List ℕ) → Result (Unit {0}) StorageError × Fs
  store_share store fs nonce participant_id bytes = elim (custody.encrypt store.key nonce bytes) [
    | err e ↦ (err (crypto e), fs)
    | ok ciphertext ↦ written (files.write fs (path_for store participant_id) (nonce ++ ciphertext))
  ]

  abbrev opened : Result (List ℕ) Str → Result (List ℕ) StorageError
  opened (ok plaintext) = ok plaintext
  opened (err e) = err (crypto e)

  unfoldable pub load_share :
      EncryptedShareStore Key → Fs → (participant_id : ℕ) → Result (List ℕ) StorageError
  load_share store fs participant_id = elim (files.read fs (path_for store participant_id)) [
    | err e ↦ err (io e)
    | ok blob ↦
        if ltb (length blob) 12
        then err (crypto (text "blob too short"))
        else opened (custody.decrypt store.key (take 12 blob) (drop 12 blob))
  ]

  -- The file filled with zeros, where its length is known; errors are ignored.
  unfoldable pub zeroed : Fs → Str → Fs
  zeroed fs path = elim (files.metadata_len fs path) [
    | err e ↦ fs
    | ok len ↦ (files.write fs path (replicate len 0)).1
  ]

  unfoldable pub delete_share :
      EncryptedShareStore Key → Fs → (participant_id : ℕ) → Result (Unit {0}) StorageError × Fs
  delete_share store fs participant_id =
      let path = path_for store participant_id in
      if files.exists fs path
      then written (files.remove_file (zeroed fs path) path)
      else (ok tt, fs)
