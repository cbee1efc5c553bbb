-- ===== src/Storage/Accounting.antt =====
-- The size that storage/binary_storage.py keeps is the sum of the sizes in its index.
use seigr_toolset_transmissi.Common.{
  ℕ, ◌≡◌, refl, sym, ◌∙◌, Bytes, Bool, true, false, Bool-cases, Option, none, some, inl, inr,
  length, arith,
}
use seigr_toolset_transmissi.Common.Dict.{get as find, has, bytes_eq, bytes_beq}
use seigr_toolset_transmissi.Streaming.{Chunks}
use seigr_toolset_transmissi.Storage.{
  Metadata, Storage, total, storage_session, stream_context, written, encrypt_and_write,
  remove_indexed, forget, remove, make_room, store_new, put_locked, put, verified, read_file,
  read_indexed, get,
}
use seigr_toolset_transmissi.Storage.Eviction.{make_room-held}
use seigr_toolset_transmissi.Storage.Locking.{with_lock-keeps, and_then-keeps}
use seigr_toolset_transmissi.Storage.Index.{
  IsUnique, assign-IsUnique, delete-IsUnique, total-assign_new, total-assign_known, total-delete,
  has-none,
}

module _ {C : Type 0} where
  -- The size is that of the index, in which no address stands twice.
  pub record IsCounted (s : Storage C) : Type 0 where
    pub counted : s.current_size ≡ total s.index
    pub unique : IsUnique s.index

  relock-IsCounted : (b : Bool) (s : Storage C) → IsCounted s → IsCounted (record s { locked = b })
  relock-IsCounted b s h = record { counted = h.counted; unique = h.unique }

  remove_indexed-IsCounted :
      (address : Bytes) (m : Option Metadata) (s : Storage C)
      → find address s.index ≡ m
      → IsCounted s
      → IsCounted (remove_indexed address m s).1
  unfolding forget
  remove_indexed-IsCounted address none s there h = h
  remove_indexed-IsCounted address (some m) s there h = record {
    counted = omega (arith, total-delete address m s.index h.unique there, h.counted);
    unique = delete-IsUnique address s.index h.unique;
  }

  -- remove keeps the accounts, whether it finds the address or not.
  pub remove-IsCounted :
      (address : Bytes) (s : Storage C) → IsCounted s → IsCounted (remove address s).1
  unfolding remove
  remove-IsCounted address s h =
      with_lock-keeps IsCounted relock-IsCounted _ s
        (λ t held. remove_indexed-IsCounted address (find address t.index) t refl) h

module _ {C : Type 0} (k : Chunks C) (digest : Bytes → Bytes) where
  written-IsCounted :
      (now : ℕ) (address plain : Bytes) (c : C) (r : Option (C × (Bytes × Bytes))) (s : Storage C)
      → find address s.index ≡ none
      → IsCounted s
      → IsCounted (written k now address plain c r s).1
  written-IsCounted now address plain c none s new h = record {
    counted = h.counted;
    unique = h.unique;
  }
  written-IsCounted now address plain c (some (c', (header, cipher))) s new h = record {
    counted = omega (arith, total-assign_new address _ s.index new, h.counted);
    unique = assign-IsUnique address _ s.index h.unique;
  }

  store_new-IsCounted :
      (now : ℕ) (plain : Bytes) (there : Bool) (s : Storage C)
      → s.locked ≡ true
      → has (digest plain) s.index ≡ there
      → IsCounted s
      → IsCounted (store_new k digest there now plain s).1
  unfolding encrypt_and_write
  store_new-IsCounted now plain true s held there h = h
  store_new-IsCounted now plain false s held there h =
      and_then-keeps IsCounted relock-IsCounted (make_room (length plain) s) _ s
        (make_room-held (length plain) s held)
        (λ _.
          written-IsCounted now (digest plain) plain
            (stream_context k (storage_session (digest plain)) s) _ s
            (has-none (digest plain) s.index there) h)
        h

  pub put-IsCounted :
      (now : ℕ) (plain : Bytes) (s : Storage C)
      → IsCounted s
      → IsCounted (put k digest now plain s).1
  unfolding put put_locked
  put-IsCounted now plain s h =
      with_lock-keeps IsCounted relock-IsCounted _ s
        (λ t held. store_new-IsCounted now plain (has (digest plain) t.index) t held refl) h

  verified-IsCounted :
      (now : ℕ) (address : Bytes) (m : Metadata) (c : C) (r : Option (C × Bytes)) (s : Storage C)
      → find address s.index ≡ some m
      → IsCounted s
      → IsCounted (verified k digest now address m c r s).1
  verified-IsCounted now address m c none s there h = record {
    counted = h.counted;
    unique = h.unique;
  }
  verified-IsCounted now address m c (some (c', plain)) s there h =
      elim (Bool-cases (bytes_beq (digest plain) address)) [
        | inl same ↦
            rw (verified, same)
              (record {
                counted = h.counted ∙ sym (total-assign_known address _ m s.index there refl);
                unique = assign-IsUnique address _ s.index h.unique;
              })
        | inr differ ↦ rw (verified, differ) (record { counted = h.counted; unique = h.unique })
      ]

  read_file-IsCounted :
      (now : ℕ) (address : Bytes) (m : Metadata) (content : Option Bytes) (s : Storage C)
      → find address s.index ≡ some m
      → IsCounted s
      → IsCounted (read_file k digest now address m content s).1
  unfolding read_file
  read_file-IsCounted now address m none s there h = h
  read_file-IsCounted now address m (some content) s there h =
      verified-IsCounted now address m (stream_context k (storage_session address) s) _ s there h

  read_indexed-IsCounted :
      (now : ℕ) (address : Bytes) (m : Option Metadata) (s : Storage C)
      → find address s.index ≡ m
      → IsCounted s
      → IsCounted (read_indexed k digest now address m s).1
  read_indexed-IsCounted now address none s there h = h
  read_indexed-IsCounted now address (some m) s there h =
      read_file-IsCounted now address m (find address s.files) s there h

  -- The size that is kept is the sum of the sizes in the index, in which no address stands twice: put,
  -- get and remove keep this, however they end.
  pub storage-IsCounted :
      (now : ℕ) (plain address : Bytes) (s : Storage C)
      → IsCounted s
      → IsCounted (put k digest now plain s).1
        × IsCounted (get k digest now address s).1
        × IsCounted (remove address s).1
  unfolding get
  storage-IsCounted now plain address s h = (
    put-IsCounted now plain s h,
    with_lock-keeps IsCounted relock-IsCounted _ s
        (λ t held. read_indexed-IsCounted now address (find address t.index) t refl) h,
    remove-IsCounted address s h,
  )
