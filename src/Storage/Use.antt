-- ===== src/Storage/Use.antt =====
-- A storage in use: data that put has stored, through any calls, and through a restart,
-- storage/binary_storage.py.
use seigr_toolset_transmissi.Common.{
  ℕ, ◌≡◌, ◌≢◌, refl, sym, ap, ◌∙◌, ◌++◌, Bytes, true, false, Option, none, some, length,
}
use seigr_toolset_transmissi.Common.Dict.{has, get-put as find-assign, bytes_eq}
use seigr_toolset_transmissi.Streaming.{Chunks, IsLawful}
use seigr_toolset_transmissi.Storage.{
  Outcome, done, failed, waits, Storage, release, and_then, storage_session, stream_context,
  keep_context, written, encrypt_and_write, remove, make_room, store_new, put_locked, put, get,
}
use seigr_toolset_transmissi.Storage.Eviction.{make_room-held}
use seigr_toolset_transmissi.Storage.Locking.{with_lock-free, release-keeps}
use seigr_toolset_transmissi.Storage.Retrieval.{
  same_bytes, IsSound, stream_context-Belongs, same-IsSound, keep_context-IsSound, get-IsStored,
}
use seigr_toolset_transmissi.Storage.Keeping.{
  Holds, KeepsStream, relock-Holds, put-Holds, get-Holds, remove-Holds,
}

module _ {C : Type 0} (k : Chunks C) (lawful : IsLawful k) (digest : Bytes → Bytes) where
  -- Calls one after the other, whatever comes of them, of which none removes this address.
  pub data Calls (address : Bytes) : Storage C → Storage C → Type 0 where
    no_call : {s : Storage C} → Calls address s s
    put_call :
        {s t : Storage C}
        → (now : ℕ) (plain : Bytes) → Calls address (put k digest now plain s).1 t
        → Calls address s t
    get_call :
        {s t : Storage C}
        → (now : ℕ) (other : Bytes) → Calls address (get k digest now other s).1 t
        → Calls address s t
    remove_call :
        {s t : Storage C}
        → (other : Bytes) → other ≢ address
        → Calls address (remove other s).1 t
        → Calls address s t

  pub Calls-Holds :
      (keeps : KeepsStream k lawful digest) (address plain : Bytes) (s t : Storage C)
      → Calls address s t
      → Holds k lawful digest address plain s
      → Holds k lawful digest address plain t
  Calls-Holds keeps address plain s t no_call h = h
  Calls-Holds keeps address plain s t (put_call now fresh calls) h =
      Calls-Holds keeps address plain (put k digest now fresh s).1 t calls
        (put-Holds k lawful digest address plain fresh now s h)
  Calls-Holds keeps address plain s t (get_call now other calls) h =
      Calls-Holds keeps address plain (get k digest now other s).1 t calls
        (get-Holds k lawful digest keeps address plain other now s h)
  Calls-Holds keeps address plain s t (remove_call other differ calls) h =
      Calls-Holds keeps address plain (remove other s).1 t calls
        (remove-Holds k lawful digest address plain other s differ h)

  -- What encryption and writing leave, where they do not raise.
  written-IsStored :
      (now : ℕ) (address plain a : Bytes) (c : C) (r : Option (C × (Bytes × Bytes))) (s : Storage C)
      → digest plain ≡ address
      → lawful.BelongsTo (storage_session address) 0 c
      → IsSound k lawful digest s
      → k.encrypt_chunk c plain ≡ r
      → (written k now address plain c r s).0 ≡ done a
      → Holds k lawful digest address plain (written k now address plain c r s).1
  written-IsStored now address plain a c none s addressed own sound run ended = cc ended
  written-IsStored now address plain a c (some (c', (header, cipher))) s addressed own sound run
        ended =
      let still =
        (lawful.encrypt_keeps (storage_session address) 0 c c' plain header cipher own run).0 in
      let t = keep_context k (storage_session address) c' s in
      let same = same_bytes address in
      record {
        sound =
            same-IsSound k lawful digest t _ refl
              (keep_context-IsSound k lawful digest (storage_session address) c' s still sound);
        stored = record {
          entry = record {
            size = length plain;
            encrypted_size = length (header ++ cipher);
            timestamp = now;
            access_time = now;
          };
          header = header;
          cipher = cipher;
          before = c;
          after = c';
          addressed = addressed;
          listed = rw (find-assign, same) refl;
          filed = rw (find-assign, same) refl;
          sealer = own;
          sealed = run;
        };
      }

  release-0 : {A : Type 0} (r : Outcome A × Storage C) → (release r).0 ≡ r.0
  release-0 (done a, s) = refl
  release-0 (failed e, s) = refl
  release-0 (waits, s) = refl

  and_then-inv :
      {A B : Type 0} (r : Outcome A × Storage C) (next : A → Storage C → Outcome B × Storage C)
      (s : Storage C) (b : B)
      → r.1 ≡ s
      → (and_then r next).0 ≡ done b
      → (a : A) × (and_then r next ≡ next a s)
  and_then-inv (done a, t) next s b same ended = (a, ap (next a) same)
  and_then-inv (failed e, t) next s b same ended = cc ended
  and_then-inv (waits, t) next s b same ended = cc ended

  written-address :
      (now : ℕ) (address plain a : Bytes) (c : C) (r : Option (C × (Bytes × Bytes))) (s : Storage C)
      → (written k now address plain c r s).0 ≡ done a
      → a ≡ address
  written-address now address plain a c none s ended = cc ended
  written-address now address plain a c (some (c', (header, cipher))) s ended = cc ended

  store_new-Holds :
      (now : ℕ) (plain a : Bytes) (s : Storage C)
      → s.locked ≡ true
      → IsSound k lawful digest s
      → (store_new k digest false now plain s).0 ≡ done a
      → (a ≡ digest plain)
        × Holds k lawful digest (digest plain) plain (store_new k digest false now plain s).1
  unfolding encrypt_and_write
  store_new-Holds now plain a s held sound ended =
      let address = digest plain in
      let c = stream_context k (storage_session address) s in
      let (u, run) =
        and_then-inv (make_room (length plain) s) _ s a (make_room-held (length plain) s held)
          ended in
      let wrote = sym (ap (λ r. r.0) run) ∙ ended in
      (
        written-address now address plain a c (k.encrypt_chunk c plain) s wrote,
        rw run (
            written-IsStored now address plain a c (k.encrypt_chunk c plain) s refl
              (stream_context-Belongs k lawful digest (storage_session address) s sound) sound refl
              wrote),
      )

  pub put-Holds_new :
      (now : ℕ) (plain a : Bytes) (s : Storage C)
      → s.locked ≡ false
      → IsSound k lawful digest s
      → has (digest plain) s.index ≡ false
      → (put k digest now plain s).0 ≡ done a
      → Holds k lawful digest a plain (put k digest now plain s).1
  unfolding put put_locked
  put-Holds_new now plain a s free sound new ended =
      let held = record s { locked = true } in
      let run : put k digest now plain s ≡ release (store_new k digest false now plain held) =
        with_lock-free (put_locked k digest now plain) s free
        ∙ ap (λ b. release (store_new k digest b now plain held)) new in
      let stored =
        sym (release-0 (store_new k digest false now plain held))
        ∙ sym (ap (λ r. r.0) run)
        ∙ ended in
      let (address, holds) =
        store_new-Holds now plain a held refl (same-IsSound k lawful digest s held refl sound)
          stored in
      rw (run, address)
        (release-keeps (Holds k lawful digest (digest plain) plain)
          (relock-Holds k lawful digest (digest plain) plain)
          (store_new k digest false now plain held) holds)

  -- New data that put has stored in a free storage are what get returns for their address, after any
  -- calls, whatever they do, of which none removes the address and after which the lock is free. The
  -- crypto context is lawful, and the contexts that are cached at the start are those of their streams.
  pub get-put :
      (keeps : KeepsStream k lawful digest) (now later : ℕ) (plain a : Bytes) (s t : Storage C)
      → s.locked ≡ false
      → IsSound k lawful digest s
      → has (digest plain) s.index ≡ false
      → (put k digest now plain s).0 ≡ done a
      → Calls a (put k digest now plain s).1 t
      → t.locked ≡ false
      → (get k digest later a t).0 ≡ done plain
  get-put keeps now later plain a s t free sound new ended calls free_again =
      let start = put-Holds_new now plain a s free sound new ended in
      let h = Calls-Holds keeps a plain (put k digest now plain s).1 t calls start in
      get-IsStored k lawful digest later a plain t free_again h.sound h.stored
