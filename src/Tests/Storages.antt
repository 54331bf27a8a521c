-- ===== src/Tests/Storages.antt =====
-- The share store of crates/keymesh-tss on concrete contents.
use key_mesh.Prelude.{
  ℕ, ◌≡◌, ◌≢◌, refl, sym, ap, true, false, Bool, List, [], ◌∷◌, Option, none, some, replicate,
  arith, if◌then◌else◌, Bool-cases, inl, inr,
}
use key_mesh.Prelude.Bytes.{bytes_eq, bytes_eq_iff}
use key_mesh.Prelude.Text.{Str, text, decimal}
use key_mesh.Prelude.Outcome.{Result, ok, err, is_ok}
use key_mesh.Tss.Storage.{
  FileSystem, Custody, EncryptedShareStore, store_share, load_share, delete_share, path_for, zeroed,
}
use key_mesh.Tss.Storage.AtRest.{load_share-store_share, load_share-delete_share}

-- Files are a function from their paths.
abbrev Files : Type 0
Files = Str → Option (List ℕ)

abbrev contents : Option (List ℕ) → Result (List ℕ) Str
contents none = err []
contents (some bytes) = ok bytes

abbrev with_file : Files → Str → Option (List ℕ) → Files
with_file fs path file = λ q. if bytes_eq path q then file else fs q

with_file-same :
    (fs : Files) (path : Str) (file : Option (List ℕ)) → with_file fs path file path ≡ file
with_file-same fs path file = rw ((bytes_eq_iff path path).1 refl) refl

with_file-other :
    (fs : Files) (path other : Str) (file : Option (List ℕ))
    → path ≢ other
    → with_file fs path file other ≡ fs other
with_file-other fs path other file apart = elim (Bool-cases (bytes_eq path other)) [
  | inl e ↦ absurd (apart ((bytes_eq_iff path other).0 e))
  | inr e ↦ rw e refl
]

abbrev is_there : Option (List ℕ) → Bool
is_there none = false
is_there (some bytes) = true

absent_unreadable : (file : Option (List ℕ)) → is_there file ≡ false → is_ok (contents file) ≡ false
absent_unreadable none h = refl
absent_unreadable (some bytes) h = cc

abbrev in_memory : FileSystem Files
in_memory = record {
  write = λ fs path bytes. (ok tt, with_file fs path (some bytes));
  read = λ fs path. contents (fs path);
  remove_file = λ fs path. (ok tt, with_file fs path none);
  exists = λ fs path. is_there (fs path);
  metadata_len = λ fs path. ok 0;
  read-write = λ fs path bytes h. ap contents (with_file-same fs path (some bytes));
  read-write_other =
      λ fs path other bytes apart. ap contents (with_file-other fs path other (some bytes) apart);
  read-remove_other = λ fs path other apart. ap contents (with_file-other fs path other none apart);
  read-exists = λ fs path h. absent_unreadable (fs path) h;
  read-remove = λ fs path h. ap (λ file. is_ok (contents file)) (with_file-same fs path none);
}

-- No encryption, and one directory.
abbrev plain : Custody (Unit {0})
plain = record {
  derive_key = λ passphrase. tt;
  encrypt = λ key nonce plaintext. ok plaintext;
  decrypt = λ key nonce ciphertext. ok ciphertext;
  join = λ directory name. name;
  decrypt-encrypt = λ key nonce plaintext ciphertext e. sym e;
  join_inj = λ directory a b e. e;
}

abbrev store : EncryptedShareStore (Unit {0})
store = record { path = b'd' ∷ []; key = tt }

abbrev empty : Files
empty = λ path. none

abbrev share : List ℕ
share = 1 ∷ 2 ∷ 3 ∷ []

abbrev files : Files
files = (store_share plain in_memory store empty (replicate 12 7) 0 share).1

stored : (store_share plain in_memory store empty (replicate 12 7) 0 share).0 ≡ ok tt
unfolding store_share
stored = refl

load_share-store_share_example :
    (load_share plain in_memory store files 0 ≡ ok share)
    × (load_share plain in_memory store files 1 ≡ load_share plain in_memory store empty 1)
load_share-store_share_example =
    load_share-store_share plain in_memory store empty (replicate 12 7) 0 1 share refl stored
      (omega arith)

deleted :
    (delete_share plain in_memory store
      (store_share plain in_memory store empty (replicate 12 7) 0 share).1
      0).0
    ≡ ok tt
unfolding store_share delete_share path_for zeroed bytes_eq text decimal
deleted = refl

load_share-delete_share_example :
    (is_ok (load_share plain in_memory store (delete_share plain in_memory store files 0).1 0)
      ≡ false)
    × (load_share plain in_memory store (delete_share plain in_memory store files 0).1 1
        ≡ load_share plain in_memory store files 1)
load_share-delete_share_example =
    load_share-delete_share plain in_memory store
      (store_share plain in_memory store empty (replicate 12 7) 0 share).1 0 1 deleted (omega arith)
