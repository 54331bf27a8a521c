-- ===== src/Tss/Storage/AtRest.antt =====
-- What crates/keymesh-tss/src/storage.rs keeps: a share that was stored is loaded, the others stay.
use key_mesh.Prelude.{
  ℕ, ◌≡◌, ◌≢◌, refl, sym, ap, ◌∙◌, true, false, List, ◌++◌, length, take, drop, arith,
  length-append, append_inj, ltb, take-append, drop-append, replicate, Bool-cases, inl, inr,
}
use key_mesh.Prelude.Text.{Str, text, decimal, decimal_inj}
use key_mesh.Prelude.Outcome.{ok, is_ok, Result-cases}
use key_mesh.Tss.Storage.{
  FileSystem, Custody, EncryptedShareStore, path_for, store_share, load_share, zeroed, delete_share,
}

module _ {Key Fs : Type 0} (custody : Custody Key) (files : FileSystem Fs) where
  -- A blob of a nonce of 12 bytes and its ciphertext opens.
  open-blob :
      (store : EncryptedShareStore Key) (fs : Fs) (id : ℕ) (nonce bytes ciphertext : List ℕ)
      → length nonce ≡ 12
      → custody.encrypt store.key nonce bytes ≡ ok ciphertext
      → files.read fs (path_for custody files store id) ≡ ok (nonce ++ ciphertext)
      → load_share custody files store fs id ≡ ok bytes
  unfolding load_share
  open-blob store fs id nonce bytes ciphertext twelve sealed present =
      let front : take 12 (nonce ++ ciphertext) ≡ nonce =
        rw (← twelve) (take-append nonce ciphertext) in
      let back : drop 12 (nonce ++ ciphertext) ≡ ciphertext =
        rw (← twelve) (drop-append nonce ciphertext) in
      let long = length-append nonce ciphertext in
      let opens = custody.decrypt-encrypt store.key nonce bytes ciphertext sealed in
      let fits : ltb (length (nonce ++ ciphertext)) 12 ≡ false = ground (arith, long, twelve) in
      rw (present, fits, front, back, opens, load_share) refl

  -- Different participants have different files.
  path_for_inj :
      (store : EncryptedShareStore Key) (a b : ℕ)
      → path_for custody files store a ≡ path_for custody files store b
      → a ≡ b
  unfolding path_for
  path_for_inj store a b e =
      let names = custody.join_inj store.path _ _ e in
      let (_, numbered) = append_inj (text "share-") (text "share-") refl names in
      let same : length (decimal a) ≡ length (decimal b) = omega (
        arith,
        ap length numbered,
        length-append (decimal a) (text ".enc"),
        length-append (decimal b) (text ".enc"),
      ) in
      decimal_inj a b (append_inj (decimal a) (decimal b) same numbered).0

  -- What `load` returns depends on the file alone.
  load-same_file :
      (store : EncryptedShareStore Key) (fs fs' : Fs) (id : ℕ)
      → files.read fs' (path_for custody files store id)
        ≡ files.read fs (path_for custody files store id)
      → load_share custody files store fs' id ≡ load_share custody files store fs id
  unfolding load_share
  load-same_file store fs fs' id e = rw (e, load_share) refl

  store-writes :
      (store : EncryptedShareStore Key) (fs : Fs) (nonce : List ℕ) (id : ℕ)
      (bytes ciphertext : List ℕ)
      → custody.encrypt store.key nonce bytes ≡ ok ciphertext
      → (store_share custody files store fs nonce id bytes).0 ≡ ok tt
      → ((store_share custody files store fs nonce id bytes).1
          ≡ (files.write fs (path_for custody files store id) (nonce ++ ciphertext)).1)
        × ((files.write fs (path_for custody files store id) (nonce ++ ciphertext)).0 ≡ ok tt)
  unfolding store_share
  store-writes store fs nonce id bytes ciphertext sealed stored =
      elim (Result-cases
        (files.write fs (path_for custody files store id) (nonce ++ ciphertext)).0) [
          | inr (e, failed) ↦ absurd (ground (arith, stored, sealed, failed))
          | inl (u, wrote) ↦ (ground (arith, sealed, wrote), wrote)
        ]

  -- What `store` returned ok for is what `load` returns; the other participants' shares are as before.
  pub load_share-store_share :
      (store : EncryptedShareStore Key) (fs : Fs) (nonce : List ℕ) (id other : ℕ) (bytes : List ℕ)
      → length nonce ≡ 12
      → (store_share custody files store fs nonce id bytes).0 ≡ ok tt
      → other ≢ id
      → (load_share custody files store (store_share custody files store fs nonce id bytes).1 id
          ≡ ok bytes)
        × (load_share custody files store
              (store_share custody files store fs nonce id bytes).1
              other
            ≡ load_share custody files store fs other)
  unfolding store_share
  load_share-store_share store fs nonce id other bytes twelve stored apart =
      elim (Result-cases (custody.encrypt store.key nonce bytes)) [
        | inr (e, failed) ↦ absurd (cc (rw (failed, store_share) at stored))
        | inl (ciphertext, sealed) ↦
            let (after, wrote) = store-writes store fs nonce id bytes ciphertext sealed stored in
            rw after (
              open-blob store _ id nonce bytes ciphertext twelve sealed (
                  files.read-write fs (path_for custody files store id) (nonce ++ ciphertext)
                    wrote),
              load-same_file store fs _ other (
                  files.read-write_other fs (path_for custody files store id)
                    (path_for custody files store other) (nonce ++ ciphertext)
                    (λ e. apart (path_for_inj store other id (sym e)))),
            )
      ]

  load-unreadable :
      (store : EncryptedShareStore Key) (fs : Fs) (id : ℕ)
      → is_ok (files.read fs (path_for custody files store id)) ≡ false
      → is_ok (load_share custody files store fs id) ≡ false
  unfolding load_share
  load-unreadable store fs id h =
      elim (Result-cases (files.read fs (path_for custody files store id))) [
        | inl (blob, e) ↦ absurd (cc (rw e at h))
        | inr (e, failed) ↦ rw (failed, load_share) refl
      ]

  zeroed-other :
      (fs : Fs) (path other : Str)
      → path ≢ other
      → files.read (zeroed custody files fs path) other ≡ files.read fs other
  unfolding zeroed
  zeroed-other fs path other apart = elim (Result-cases (files.metadata_len fs path)) [
    | inl (len, e) ↦ rw (e, zeroed) (files.read-write_other fs path other (replicate len 0) apart)
    | inr (e, failed) ↦ rw (failed, zeroed) refl
  ]

  delete-removes :
      (store : EncryptedShareStore Key) (fs : Fs) (id : ℕ)
      → files.exists fs (path_for custody files store id) ≡ true
      → (delete_share custody files store fs id).0 ≡ ok tt
      → let path = path_for custody files store id in
        ((delete_share custody files store fs id).1
          ≡ (files.remove_file (zeroed custody files fs path) path).1)
        × ((files.remove_file (zeroed custody files fs path) path).0 ≡ ok tt)
  unfolding delete_share
  delete-removes store fs id there deleted =
      let path = path_for custody files store id in
      elim (Result-cases (files.remove_file (zeroed custody files fs path) path).0) [
        | inr (e, failed) ↦ absurd (ground (arith, deleted, there, failed))
        | inl (u, removed) ↦ (ground (arith, there, removed), removed)
      ]

  delete-absent :
      (store : EncryptedShareStore Key) (fs : Fs) (id : ℕ)
      → files.exists fs (path_for custody files store id) ≡ false
      → (delete_share custody files store fs id).1 ≡ fs
  unfolding delete_share
  delete-absent store fs id absent = ground (arith, absent)

  -- A share that `delete` returned ok for is not loaded any more, and the other participants' shares are
  -- as before.
  pub load_share-delete_share :
      (store : EncryptedShareStore Key) (fs : Fs) (id other : ℕ)
      → (delete_share custody files store fs id).0 ≡ ok tt
      → other ≢ id
      → (is_ok (load_share custody files store (delete_share custody files store fs id).1 id)
          ≡ false)
        × (load_share custody files store (delete_share custody files store fs id).1 other
            ≡ load_share custody files store fs other)
  load_share-delete_share store fs id other deleted apart =
      let path = path_for custody files store id in
      let differ = λ (e : path ≡ path_for custody files store other).
        apart (path_for_inj store other id (sym e)) in
      elim (Bool-cases (files.exists fs path)) [
        | inr absent ↦
            rw (delete-absent store fs id absent)
              (load-unreadable store fs id (files.read-exists fs path absent), refl)
        | inl there ↦
            let (after, removed) = delete-removes store fs id there deleted in
            rw after (
              load-unreadable store _ id
                  (files.read-remove (zeroed custody files fs path) path removed),
              load-same_file store fs _ other (
                  files.read-remove_other (zeroed custody files fs path) path
                    (path_for custody files store other) differ
                  ∙ zeroed-other fs path (path_for custody files store other) differ),
            )
      ]
