-- ===== src/Storage/Eviction.antt =====
-- _evict_lru of storage/binary_storage.py is only called by put, which holds the lock that remove
-- takes.
use seigr_toolset_transmissi.Common.{
  ℕ, ◌+◌, ◌<◌, ◌≡◌, refl, ap, ◌∙◌, [], ◌∷◌, Bytes, true, false, Bool-cases, Option, none, some, inl,
  inr, List, ltb, leb, length, arith,
}
use seigr_toolset_transmissi.Common.Dict.{has, bytes_eq}
use seigr_toolset_transmissi.Streaming.{Chunks}
use seigr_toolset_transmissi.Storage.{
  Entry, waits, Storage, insert_by_access, sort_by_access, release, remove, list_addresses, evict,
  evict_lru, room_for, make_room, store_new, put_locked, put, get,
}
use seigr_toolset_transmissi.Storage.Locking.{with_lock-held, with_lock-free}

insert_by_access-cons :
    (e : Entry) (entries : List Entry)
    → (f : Entry) × (rest : List Entry) × (insert_by_access e entries ≡ f ∷ rest)
unfolding insert_by_access
insert_by_access-cons e [] = (e, [], refl)
insert_by_access-cons e (f ∷ entries) = elim (Bool-cases (leb e.1.access_time f.1.access_time)) [
  | inl older ↦ (e, f ∷ entries, rw (insert_by_access, older) refl)
  | inr newer ↦ (f, insert_by_access e entries, rw (insert_by_access, newer) refl)
]

module _ {C : Type 0} where
  remove-held : (address : Bytes) (s : Storage C) → s.locked ≡ true → remove address s ≡ (waits, s)
  unfolding remove
  remove-held address s held = with_lock-held _ s held

  evict-cons :
      (needed freed : ℕ) (e : Entry) (entries : List Entry) (s : Storage C)
      → s.locked ≡ true
      → freed < needed
      → evict needed freed (e ∷ entries) s ≡ (waits, s)
  unfolding evict
  evict-cons needed freed (address, m) entries s held more =
      let less : leb needed freed ≡ false = ground arith in
      rw (evict, less, remove-held address s held) refl

  -- Under the lock, eviction ends at once or waits, and changes nothing.
  evict-held :
      (needed freed : ℕ) (entries : List Entry) (s : Storage C)
      → s.locked ≡ true
      → (evict needed freed entries s).1 ≡ s
  unfolding evict
  evict-held needed freed [] s held = refl
  evict-held needed freed ((address, m) ∷ entries) s held = elim (Bool-cases (leb needed freed)) [
    | inl enough ↦ rw (evict, enough) refl
    | inr less ↦ rw (evict, less, remove-held address s held) refl
  ]

  room_for-held :
      (limit : Option ℕ) (size : ℕ) (s : Storage C)
      → s.locked ≡ true
      → (room_for limit size s).1 ≡ s
  unfolding evict_lru
  room_for-held none size s held = refl
  room_for-held (some limit) size s held = elim (Bool-cases (ltb limit (s.current_size + size))) [
    | inl full ↦ rw (room_for, full) (evict-held size 0 (sort_by_access s.index) s held)
    | inr small ↦ rw (room_for, small) refl
  ]

  pub make_room-held : (size : ℕ) (s : Storage C) → s.locked ≡ true → (make_room size s).1 ≡ s
  unfolding make_room
  make_room-held size s held = room_for-held s.max_size_bytes size s held

  evict_lru-waits :
      (needed : ℕ) (s : Storage C) (e : Entry) (index : List Entry)
      → s.locked ≡ true
      → s.index ≡ e ∷ index
      → 0 < needed
      → evict_lru needed s ≡ (waits, s)
  unfolding evict_lru sort_by_access
  evict_lru-waits needed s e index held full some_needed =
      let (f, rest, sorted) = insert_by_access-cons e (sort_by_access index) in
      ap (λ i. evict needed 0 (sort_by_access i) s) full
      ∙ ap (λ i. evict needed 0 i s) sorted
      ∙ evict-cons needed 0 f rest s held some_needed

  make_room-waits :
      (limit size : ℕ) (s : Storage C) (e : Entry) (index : List Entry)
      → s.locked ≡ true
      → s.max_size_bytes ≡ some limit
      → limit < s.current_size + size
      → s.index ≡ e ∷ index
      → 0 < size
      → make_room size s ≡ (waits, s)
  unfolding make_room
  make_room-waits limit size s e index held limited full there some_data =
      let over : ltb limit (s.current_size + size) ≡ true = ground arith in
      ap (λ l. room_for l size s) limited
      ∙ rw (room_for, over) (evict_lru-waits size s e index held there some_data)

module _ {C : Type 0} (k : Chunks C) (digest : Bytes → Bytes) where
  -- put of new data that is not empty, on a free storage that holds something and has not room for the
  -- data, never ends: it waits for the lock that it holds. Neither does any later call of put, get,
  -- remove or list_addresses.
  pub put_waits :
      (limit now later : ℕ) (plain : Bytes) (s : Storage C) (e : Entry) (index : List Entry)
      → s.locked ≡ false
      → s.max_size_bytes ≡ some limit
      → limit < s.current_size + length plain
      → 0 < length plain
      → s.index ≡ e ∷ index
      → has (digest plain) s.index ≡ false
      → ((put k digest now plain s).0 ≡ waits)
        × ((b : Bytes)
            → ((put k digest later b (put k digest now plain s).1).0 ≡ waits)
              × ((get k digest later b (put k digest now plain s).1).0 ≡ waits)
              × ((remove b (put k digest now plain s).1).0 ≡ waits))
        × ((list_addresses (put k digest now plain s).1).0 ≡ waits)
  unfolding put get remove list_addresses put_locked
  put_waits limit now later plain s e index free limited full some_data there new =
      let held = record s { locked = true } in
      let stuck =
        make_room-waits limit (length plain) held e index refl limited full there some_data in
      let run : put k digest now plain s ≡ (waits, held) =
        with_lock-free (put_locked k digest now plain) s free
        ∙ ap (λ b. release (store_new k digest b now plain held)) new
        ∙ rw stuck refl in
      rw run (refl, (λ b. (refl, refl, refl)), refl)
