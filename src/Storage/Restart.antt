-- ===== src/Storage/Restart.antt =====
-- Data that put has stored, after a restart: __init__ and _rebuild_index_from_disk of
-- storage/binary_storage.py.
use seigr_toolset_transmissi.Common.{
  ℕ, ◌≡◌, refl, [], ◌∷◌, ◌++◌, Bytes, false, Bool-cases, Option, some, inl, inr,
}
use seigr_toolset_transmissi.Common.Dict.{
  Dict, get as find, put as assign, has, get-put as find-assign, bytes_eq, bytes_beq,
}
use seigr_toolset_transmissi.Streaming.{Chunks, IsLawful}
use seigr_toolset_transmissi.Storage.{Metadata, done, Storage, put, get, rebuild, reopen, scanned}
use seigr_toolset_transmissi.Storage.Retrieval.{IsSound, relisted-IsStored, get-IsStored}
use seigr_toolset_transmissi.Storage.Keeping.{Holds, KeepsStream}
use seigr_toolset_transmissi.Storage.Use.{Calls, put-Holds_new, Calls-Holds}

module _ (changed accessed : Bytes → ℕ) where
  rebuild-keeps :
      (a : Bytes) (index : Dict Bytes Metadata) (files : Dict Bytes Bytes) (m : Metadata)
      → find a index ≡ some m
      → (n : Metadata) × (find a (rebuild changed accessed index files) ≡ some n)
  unfolding rebuild
  rebuild-keeps a index [] m there = (m, there)
  rebuild-keeps a index ((b, content) ∷ files) m there =
      let n = scanned changed accessed b content in
      elim (Bool-cases (bytes_beq b a)) [
        | inl same ↦ rebuild-keeps a (assign b n index) files n (rw (find-assign, same) refl)
        | inr other ↦ rebuild-keeps a (assign b n index) files m (rw (find-assign, other) there)
      ]

  rebuild-finds :
      (a content : Bytes) (index : Dict Bytes Metadata) (files : Dict Bytes Bytes)
      → find a files ≡ some content
      → (n : Metadata) × (find a (rebuild changed accessed index files) ≡ some n)
  unfolding rebuild find
  rebuild-finds a content index [] there = cc there
  rebuild-finds a content index ((b, other) ∷ files) there =
      let n = scanned changed accessed b other in
      elim (Bool-cases (bytes_beq b a)) [
        | inl same ↦ rebuild-keeps a (assign b n index) files n (rw (find-assign, same) refl)
        | inr differ ↦ rebuild-finds a content (assign b n index) files (rw (find, differ) at there)
      ]

module _ {C : Type 0} (k : Chunks C) (lawful : IsLawful k) (digest : Bytes → Bytes)
    (changed accessed : Bytes → ℕ) where
  reopen-Holds :
      (limit : Option ℕ) (address plain : Bytes) (s : Storage C)
      → Holds k lawful digest address plain s
      → Holds k lawful digest address plain (reopen changed accessed limit s.files)
  unfolding reopen find
  reopen-Holds limit address plain s h =
      let (n, listed) =
        rebuild-finds changed accessed address (h.stored.header ++ h.stored.cipher) [] s.files
          h.stored.filed in
      record {
        sound = record { belongs = λ session c there. cc there };
        stored =
            relisted-IsStored k lawful digest s (reopen changed accessed limit s.files) address
              plain n listed refl h.stored;
      }

  -- New data that put has stored in a free storage survive the process: a storage that is opened, with
  -- any limit, on the files that any calls have left, of which none removes the address, returns them.
  -- The crypto context is lawful, and the contexts that are cached at the start are those of their
  -- streams.
  pub get-reopen :
      (keeps : KeepsStream k lawful digest) (now later : ℕ) (limit : Option ℕ) (plain a : Bytes)
      (s t : Storage C)
      → s.locked ≡ false
      → IsSound k lawful digest s
      → has (digest plain) s.index ≡ false
      → (put k digest now plain s).0 ≡ done a
      → Calls k lawful digest a (put k digest now plain s).1 t
      → (get k digest later a (reopen changed accessed limit t.files)).0 ≡ done plain
  unfolding reopen
  get-reopen keeps now later limit plain a s t free sound new ended calls =
      let start = put-Holds_new k lawful digest now plain a s free sound new ended in
      let h =
        Calls-Holds k lawful digest keeps a plain (put k digest now plain s).1 t calls start in
      let again = reopen-Holds limit a plain t h in
      get-IsStored k lawful digest later a plain (reopen changed accessed limit t.files) refl
        again.sound again.stored
