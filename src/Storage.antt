-- ===== src/Storage.antt =====
-- seigr_toolset_transmissions/storage/binary_storage.py, class BinaryStorage. A call is one run of its
-- coroutine by the only task that uses the storage: `waits` is a run that waits for the lock and that
-- nobody wakes. The files stand under their addresses, without the shards of the directory, and the
-- disk does not fail. The SHA3-256 digest of the standard library and the chunk contexts of the crypto
-- package are parameters. The index file is written in a way that never succeeds and is read back in
-- none, so a storage that is opened builds its index from the files.
pub mod Locking
pub mod Eviction
pub mod Retrieval
pub mod Keeping
pub mod Use
pub mod Restart
pub mod Index
pub mod Accounting
mod Examples
use seigr_toolset_transmissi.Common.{
  ℕ, ◌+◌, ◌-◌, List, [], ◌∷◌, ◌++◌, Bytes, Bool, true, false, not, Option, none, some, ltb, leb,
  ◌==◌, if◌then◌else◌, length, take, drop,
}
use seigr_toolset_transmissi.Common.Dict.{
  Dict, get as find, put as assign, remove as delete, has, keys, bytes_beq, bytes_eq,
}
use seigr_toolset_transmissi.Streaming.{Chunks}

-- The `STTStorageError`s, and what an encryption raises.
pub data StorageError : Type 0 where
  not_found file_missing undecryptable corrupted encryption_raised : StorageError

pub record Metadata : Type 0 where
  pub size : ℕ
  pub encrypted_size : ℕ
  pub timestamp : ℕ
  pub access_time : ℕ

abbrev pub Entry : Type 0
Entry = Bytes × Metadata

-- How a run of a coroutine ends.
pub data Outcome {ℓ} (A : Type ℓ) : Type ℓ where
  done : A → Outcome A
  failed : StorageError → Outcome A
  waits : Outcome A

pub record Storage (C : Type 0) : Type 0 where
  pub max_size_bytes : Option ℕ
  pub index : Dict Bytes Metadata
  pub current_size : ℕ
  pub locked : Bool
  pub files : Dict Bytes Bytes
  pub contexts : Dict Bytes C

abbrev pub total : Dict Bytes Metadata → ℕ
total [] = 0
total ((a, m) ∷ index) = m.size + total index

-- `sorted(items, key=access_time)`, which is stable.
unfoldable pub insert_by_access : Entry → List Entry → List Entry
insert_by_access e [] = e ∷ []
insert_by_access e (f ∷ entries) =
    let later = insert_by_access e entries in
    if leb e.1.access_time f.1.access_time then e ∷ (f ∷ entries) else f ∷ later

unfoldable pub sort_by_access : List Entry → List Entry
sort_by_access [] = []
sort_by_access (e ∷ entries) = insert_by_access e (sort_by_access entries)

module _ {C : Type 0} where
  -- `async with self._lock`
  abbrev pub release {ℓ} : {A : Type ℓ} → Outcome A × Storage C → Outcome A × Storage C
  release (done a, s) = (done a, record s { locked = false })
  release (failed e, s) = (failed e, record s { locked = false })
  release (waits, s) = (waits, s)

  abbrev pub under_lock {ℓ} :
      {A : Type ℓ} → Bool → (Storage C → Outcome A × Storage C) → Storage C → Outcome A × Storage C
  under_lock true body s = (waits, s)
  under_lock false body s = release (body (record s { locked = true }))

  abbrev pub with_lock {ℓ} :
      {A : Type ℓ} → (Storage C → Outcome A × Storage C) → Storage C → Outcome A × Storage C
  with_lock body s = under_lock s.locked body s

  -- What comes next in the same coroutine.
  abbrev pub and_then {ℓ κ} :
      {A : Type ℓ} {B : Type κ}
      → Outcome A × Storage C
      → (A → Storage C → Outcome B × Storage C)
      → Outcome B × Storage C
  and_then (done a, s) next = next a s
  and_then (failed e, s) next = (failed e, s)
  and_then (waits, s) next = (waits, s)

  unfoldable pub forget : Bytes → Metadata → Storage C → Outcome (Unit {0}) × Storage C
  forget address m s = (
    done tt,
    record s {
      files = delete address s.files;
      index = delete address s.index;
      current_size = s.current_size - m.size;
    },
  )

  abbrev pub remove_indexed : Bytes → Option Metadata → Storage C → Outcome (Unit {0}) × Storage C
  remove_indexed address none s = (failed not_found, s)
  remove_indexed address (some m) s = forget address m s

  -- `remove`
  unfoldable pub remove : Bytes → Storage C → Outcome (Unit {0}) × Storage C
  remove address s = with_lock (λ s'. remove_indexed address (find address s'.index) s') s

  -- `list_addresses` and `exists`
  unfoldable pub list_addresses : Storage C → Outcome (List Bytes) × Storage C
  list_addresses s = with_lock (λ s'. (done (keys s'.index), s')) s

  abbrev pub exists : Bytes → Storage C → Bool
  exists address s = has address s.index

  -- The loop of `_evict_lru`
  unfoldable pub evict : ℕ → ℕ → List Entry → Storage C → Outcome (Unit {0}) × Storage C
  evict needed freed [] s = (done tt, s)
  evict needed freed ((address, m) ∷ entries) s = elim (leb needed freed) [
    | true ↦ (done tt, s)
    | false ↦ and_then (remove address s) (λ _ s'. evict needed (freed + m.size) entries s')
  ]

  -- `_evict_lru`
  unfoldable pub evict_lru : ℕ → Storage C → Outcome (Unit {0}) × Storage C
  evict_lru needed s = evict needed 0 (sort_by_access s.index) s

  -- The storage limit, in `put`
  abbrev pub room_for : Option ℕ → ℕ → Storage C → Outcome (Unit {0}) × Storage C
  room_for none size s = (done tt, s)
  room_for (some limit) size s = elim (ltb limit (s.current_size + size)) [
    | true ↦ evict_lru size s
    | false ↦ (done tt, s)
  ]

  unfoldable pub make_room : ℕ → Storage C → Outcome (Unit {0}) × Storage C
  make_room size s = room_for s.max_size_bytes size s

-- b"storage_" + address[:8]
abbrev pub storage_session : Bytes → Bytes
storage_session address = (115 ∷ 116 ∷ 111 ∷ 114 ∷ 97 ∷ 103 ∷ 101 ∷ 95 ∷ []) ++ take 8 address

module _ {C : Type 0} (k : Chunks C) where
  -- `stc_wrapper.create_stream_context` for stream 0, with its cache
  abbrev pub stream_context : Bytes → Storage C → C
  stream_context session s = elim (find session s.contexts) [
    | none ↦ k.create_stream_context session 0
    | some c ↦ c
  ]

  abbrev pub keep_context : Bytes → C → Storage C → Storage C
  keep_context session c s = record s { contexts = assign session c s.contexts }

  -- The file and the index entry of new data.
  abbrev pub write : ℕ → Bytes → ℕ → Bytes → Storage C → Storage C
  write now address size content s = record s {
    files = assign address content s.files;
    index =
        assign address
          (record {
            size = size;
            encrypted_size = length content;
            timestamp = now;
            access_time = now;
          })
          s.index;
    current_size = s.current_size + size;
  }

  abbrev pub written :
      ℕ → Bytes → Bytes → C → Option (C × (Bytes × Bytes)) → Storage C → Outcome Bytes × Storage C
  written now address plain c none s =
      (failed encryption_raised, keep_context (storage_session address) c s)
  written now address plain c (some (c', (header, encrypted))) s = (
    done address,
    write now address (length plain) (header ++ encrypted)
        (keep_context (storage_session address) c' s),
  )

  unfoldable pub encrypt_and_write : ℕ → Bytes → Bytes → Storage C → Outcome Bytes × Storage C
  encrypt_and_write now address plain s =
      let c = stream_context (storage_session address) s in
      written now address plain c (k.encrypt_chunk c plain) s

  module _ (digest : Bytes → Bytes) where
    abbrev pub store_new : Bool → ℕ → Bytes → Storage C → Outcome Bytes × Storage C
    store_new true now plain s = (done (digest plain), s)
    store_new false now plain s =
        and_then (make_room (length plain) s)
          (λ _ s'. encrypt_and_write now (digest plain) plain s')

    unfoldable pub put_locked : ℕ → Bytes → Storage C → Outcome Bytes × Storage C
    put_locked now plain s = store_new (has (digest plain) s.index) now plain s

    -- `put`
    unfoldable pub put : ℕ → Bytes → Storage C → Outcome Bytes × Storage C
    put now plain s = with_lock (put_locked now plain) s

    abbrev pub touch : ℕ → Bytes → Metadata → Storage C → Storage C
    touch now address m s = record s {
      index = assign address (record m { access_time = now }) s.index;
    }

    -- What was decrypted, or what it raised.
    abbrev pub verified :
        ℕ → Bytes → Metadata → C → Option (C × Bytes) → Storage C → Outcome Bytes × Storage C
    verified now address m c none s =
        (failed undecryptable, keep_context (storage_session address) c s)
    verified now address m c (some (c', plain)) s =
        let s' = keep_context (storage_session address) c' s in
        if bytes_beq (digest plain) address
        then (done plain, touch now address m s')
        else (failed corrupted, s')

    unfoldable pub read_file :
        ℕ → Bytes → Metadata → Option Bytes → Storage C → Outcome Bytes × Storage C
    read_file now address m none s = (failed file_missing, s)
    read_file now address m (some content) s =
        let c = stream_context (storage_session address) s in
        verified now address m c (k.decrypt_chunk c (take 16 content) (drop 16 content)) s

    abbrev pub read_indexed : ℕ → Bytes → Option Metadata → Storage C → Outcome Bytes × Storage C
    read_indexed now address none s = (failed not_found, s)
    read_indexed now address (some m) s = read_file now address m (find address s.files) s

    -- `get`
    unfoldable pub get : ℕ → Bytes → Storage C → Outcome Bytes × Storage C
    get now address s = with_lock (λ s'. read_indexed now address (find address s'.index) s') s

-- `_rebuild_index_from_disk`, with the times of each file
module _ (changed accessed : Bytes → ℕ) where
  abbrev pub scanned : Bytes → Bytes → Metadata
  scanned address content = record {
    size = length content;
    encrypted_size = length content;
    timestamp = changed address;
    access_time = accessed address;
  }

  unfoldable pub rebuild : Dict Bytes Metadata → Dict Bytes Bytes → Dict Bytes Metadata
  rebuild index [] = index
  rebuild index ((address, content) ∷ files) =
      rebuild (assign address (scanned address content) index) files

  abbrev pub scanned_size : Dict Bytes Bytes → ℕ
  scanned_size [] = 0
  scanned_size ((address, content) ∷ files) = length content + scanned_size files

  -- `__init__`, over the files that are there
  unfoldable pub reopen : {C : Type 0} → Option ℕ → Dict Bytes Bytes → Storage C
  reopen max_size_bytes files = record {
    max_size_bytes = max_size_bytes;
    index = rebuild [] files;
    current_size = scanned_size files;
    locked = false;
    files = files;
    contexts = [];
  }
