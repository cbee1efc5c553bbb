-- ===== src/Storage/Keeping.antt =====
-- The data at one address stay there through the calls of storage/binary_storage.py that do not remove
-- them.
use seigr_toolset_transmissi.Common.{
  ℕ, ◌≡◌, ◌≢◌, refl, sym, ap, ◌∙◌, Bytes, Bool, true, false, Bool-cases, Option, none, some, inl,
  inr, length, take, drop,
}
use seigr_toolset_transmissi.Common.Dict.{
  Dict, get as find, has, get-put as find-assign, get-remove as find-delete, bytes_eq, bytes_beq,
}
use seigr_toolset_transmissi.Streaming.{Chunks, IsLawful}
use seigr_toolset_transmissi.Storage.{
  Metadata, Storage, storage_session, stream_context, keep_context, written, encrypt_and_write,
  remove_indexed, forget, remove, make_room, store_new, put_locked, put, touch, verified, read_file,
  read_indexed, get,
}
use seigr_toolset_transmissi.Storage.Eviction.{make_room-held}
use seigr_toolset_transmissi.Storage.Locking.{with_lock-keeps, and_then-keeps}
use seigr_toolset_transmissi.Storage.Retrieval.{
  other_bytes, IsSound, IsStored, stream_context-Belongs, relisted-IsStored, same-IsStored,
  same-IsSound, keep_context-IsSound,
}

has-some :
    (a : Bytes) (m : Metadata) (index : Dict Bytes Metadata)
    → find a index ≡ some m
    → has a index ≡ true
has-some a m index there = rw (has, there) refl

module _ {C : Type 0} (k : Chunks C) (lawful : IsLawful k) (digest : Bytes → Bytes) where
  -- What holds of the data at one address, while the storage is in use.
  pub record Holds (address plain : Bytes) (s : Storage C) : Type 0 where
    pub sound : IsSound k lawful digest s
    pub stored : IsStored k lawful digest address plain s

  same-Holds :
      (address plain : Bytes) (s t : Storage C)
      → t.index ≡ s.index
      → t.files ≡ s.files
      → t.contexts ≡ s.contexts
      → Holds address plain s
      → Holds address plain t
  same-Holds address plain s t index files contexts h = record {
    sound = same-IsSound k lawful digest s t contexts h.sound;
    stored =
        same-IsStored k lawful digest s t address plain (ap (find address) index)
          (ap (find address) files) h.stored;
  }

  pub relock-Holds :
      (address plain : Bytes) (b : Bool) (s : Storage C)
      → Holds address plain s
      → Holds address plain (record s { locked = b })
  relock-Holds address plain b s h = same-Holds address plain s _ refl refl refl h

  remove_indexed-Holds :
      (address plain other : Bytes) (m : Option Metadata) (s : Storage C)
      → other ≢ address
      → Holds address plain s
      → Holds address plain (remove_indexed other m s).1
  unfolding forget
  remove_indexed-Holds address plain other none s differ h = h
  remove_indexed-Holds address plain other (some m) s differ h =
      let apart = other_bytes other address differ in
      record {
        sound = same-IsSound k lawful digest s _ refl h.sound;
        stored =
            same-IsStored k lawful digest s _ address plain (rw (find-delete, apart))
              (rw (find-delete, apart)) h.stored;
      }

  pub remove-Holds :
      (address plain other : Bytes) (s : Storage C)
      → other ≢ address
      → Holds address plain s
      → Holds address plain (remove other s).1
  unfolding remove
  remove-Holds address plain other s differ h =
      with_lock-keeps (Holds address plain) (relock-Holds address plain) _ s
        (λ t held holds.
          remove_indexed-Holds address plain other (find other t.index) t differ holds)
        h

  keep_context-Holds :
      (address plain session : Bytes) (c : C) (s : Storage C)
      → lawful.BelongsTo session 0 c
      → Holds address plain s
      → Holds address plain (keep_context k session c s)
  keep_context-Holds address plain session c s own h = record {
    sound = keep_context-IsSound k lawful digest session c s own h.sound;
    stored = same-IsStored k lawful digest s _ address plain refl refl h.stored;
  }

  -- New data under another address.
  written-Holds :
      (address plain other fresh : Bytes) (now : ℕ) (c : C) (r : Option (C × (Bytes × Bytes)))
      (s : Storage C)
      → other ≢ address
      → lawful.BelongsTo (storage_session other) 0 c
      → k.encrypt_chunk c fresh ≡ r
      → Holds address plain s
      → Holds address plain (written k now other fresh c r s).1
  written-Holds address plain other fresh now c none s differ own run h =
      keep_context-Holds address plain (storage_session other) c s own h
  written-Holds address plain other fresh now c (some (c', (header, cipher))) s differ own run h =
      let apart = other_bytes other address differ in
      let still =
        (lawful.encrypt_keeps (storage_session other) 0 c c' fresh header cipher own run).0 in
      let kept = keep_context-Holds address plain (storage_session other) c' s still h in
      record {
        sound =
            same-IsSound k lawful digest (keep_context k (storage_session other) c' s) _ refl
              kept.sound;
        stored =
            same-IsStored k lawful digest s _ address plain (rw (find-assign, apart))
              (rw (find-assign, apart)) h.stored;
      }

  encrypt_and_write-Holds :
      (address plain other fresh : Bytes) (now : ℕ) (s : Storage C)
      → other ≢ address
      → Holds address plain s
      → Holds address plain (encrypt_and_write k now other fresh s).1
  unfolding encrypt_and_write
  encrypt_and_write-Holds address plain other fresh now s differ h =
      let c = stream_context k (storage_session other) s in
      written-Holds address plain other fresh now c (k.encrypt_chunk c fresh) s differ
        (stream_context-Belongs k lawful digest (storage_session other) s h.sound) refl h

  store_new-Holds :
      (address plain fresh : Bytes) (now : ℕ) (there : Bool) (s : Storage C)
      → s.locked ≡ true
      → has (digest fresh) s.index ≡ there
      → Holds address plain s
      → Holds address plain (store_new k digest there now fresh s).1
  store_new-Holds address plain fresh now true s held there h = h
  store_new-Holds address plain fresh now false s held there h =
      let differ : digest fresh ≢ address = λ same.
        let listed = ap (λ a. find a s.index) same ∙ h.stored.listed in
        cc (sym there ∙ has-some (digest fresh) h.stored.entry s.index listed) in
      and_then-keeps (Holds address plain) (relock-Holds address plain) (make_room (length fresh) s)
        _ s (make_room-held (length fresh) s held)
        (λ _. encrypt_and_write-Holds address plain (digest fresh) fresh now s differ h) h

  pub put-Holds :
      (address plain fresh : Bytes) (now : ℕ) (s : Storage C)
      → Holds address plain s
      → Holds address plain (put k digest now fresh s).1
  unfolding put put_locked
  put-Holds address plain fresh now s h =
      with_lock-keeps (Holds address plain) (relock-Holds address plain) _ s
        (λ t held holds.
          store_new-Holds address plain fresh now (has (digest fresh) t.index) t held refl holds)
        h

  -- Decryption leaves a context of the stream a context of the stream.
  pub record KeepsStream : Type 0 where
    pub decrypt_keeps :
        (session : Bytes) (c c' : C) (h e p : Bytes)
        → lawful.BelongsTo session 0 c
        → k.decrypt_chunk c h e ≡ some (c', p)
        → lawful.BelongsTo session 0 c'

  module _ (keeps : KeepsStream) where
    touch-Holds :
        (address plain other : Bytes) (now : ℕ) (m : Metadata) (s : Storage C)
        → find other s.index ≡ some m
        → Holds address plain s
        → Holds address plain (touch k digest now other m s)
    touch-Holds address plain other now m s there h =
        let t = touch k digest now other m s in
        let sound = same-IsSound k lawful digest s t refl h.sound in
        elim (Bool-cases (bytes_beq other address)) [
          | inl same ↦ record {
            sound = sound;
            stored =
                relisted-IsStored k lawful digest s t address plain (record m { access_time = now })
                  (rw (find-assign, same) refl) refl h.stored;
          }
          | inr apart ↦ record {
            sound = sound;
            stored =
                same-IsStored k lawful digest s t address plain (rw (find-assign, apart) refl) refl
                  h.stored;
          }
        ]

    verified-Holds :
        (address plain other : Bytes) (now : ℕ) (m : Metadata) (c : C) (h e : Bytes)
        (r : Option (C × Bytes)) (s : Storage C)
        → find other s.index ≡ some m
        → lawful.BelongsTo (storage_session other) 0 c
        → k.decrypt_chunk c h e ≡ r
        → Holds address plain s
        → Holds address plain (verified k digest now other m c r s).1
    verified-Holds address plain other now m c h e none s there own run holds =
        keep_context-Holds address plain (storage_session other) c s own holds
    verified-Holds address plain other now m c h e (some (c', opened)) s there own run holds =
        let still = keeps.decrypt_keeps (storage_session other) c c' h e opened own run in
        let t = keep_context k (storage_session other) c' s in
        let kept = keep_context-Holds address plain (storage_session other) c' s still holds in
        elim (Bool-cases (bytes_beq (digest opened) other)) [
          | inl same ↦ rw (verified, same) (touch-Holds address plain other now m t there kept)
          | inr differ ↦ rw (verified, differ) kept
        ]

    read_file-Holds :
        (address plain other : Bytes) (now : ℕ) (m : Metadata) (content : Option Bytes)
        (s : Storage C)
        → find other s.index ≡ some m
        → Holds address plain s
        → Holds address plain (read_file k digest now other m content s).1
    unfolding read_file
    read_file-Holds address plain other now m none s there h = h
    read_file-Holds address plain other now m (some content) s there h =
        let c = stream_context k (storage_session other) s in
        verified-Holds address plain other now m c (take 16 content) (drop 16 content)
          (k.decrypt_chunk c (take 16 content) (drop 16 content)) s there
          (stream_context-Belongs k lawful digest (storage_session other) s h.sound) refl h

    read_indexed-Holds :
        (address plain other : Bytes) (now : ℕ) (m : Option Metadata) (s : Storage C)
        → find other s.index ≡ m
        → Holds address plain s
        → Holds address plain (read_indexed k digest now other m s).1
    read_indexed-Holds address plain other now none s there h = h
    read_indexed-Holds address plain other now (some m) s there h =
        read_file-Holds address plain other now m (find other s.files) s there h

    pub get-Holds :
        (address plain other : Bytes) (now : ℕ) (s : Storage C)
        → Holds address plain s
        → Holds address plain (get k digest now other s).1
    unfolding get
    get-Holds address plain other now s h =
        with_lock-keeps (Holds address plain) (relock-Holds address plain) _ s
          (λ t held holds.
            read_indexed-Holds address plain other now (find other t.index) t refl holds)
          h
