-- ===== src/Storage/Examples.antt =====
-- Runs of the storage, and its theorems at concrete inputs.
use seigr_toolset_transmissi.Common.{
  ℕ, suc, ◌≡◌, refl, [], ◌∷◌, Bytes, false, Option, none, some, drop, replicate, arith,
}
use seigr_toolset_transmissi.Common.Dict.{get as find, put as assign, remove as delete}
use seigr_toolset_transmissi.Streaming.{Chunks, IsLawful}
use seigr_toolset_transmissi.Storage.{
  done, waits, Storage, reopen, remove, list_addresses, put, get, put_locked, make_room,
  encrypt_and_write, read_file, forget,
}
use seigr_toolset_transmissi.Storage.Eviction.{put_waits}
use seigr_toolset_transmissi.Storage.Retrieval.{IsSound}
use seigr_toolset_transmissi.Storage.Keeping.{KeepsStream}
use seigr_toolset_transmissi.Storage.Use.{no_call, put_call, get_call, remove_call, get-put}
use seigr_toolset_transmissi.Storage.Restart.{get-reopen}
use seigr_toolset_transmissi.Storage.Accounting.{IsCounted, storage-IsCounted}

-- A context that counts its chunks, writes the count into the header and a 7 before the data; and a
-- digest that is the data themselves.
abbrev toy : Chunks ℕ
toy = record {
  create_stream_context = λ s i. 0;
  encrypt_chunk = λ c p. some (suc c, (c ∷ replicate 15 0, 7 ∷ p));
  decrypt_chunk = λ c h e. some (c, drop 1 e);
}

toy-IsLawful : IsLawful toy
toy-IsLawful = record {
  BelongsTo = λ s i c. Unit {0};
  created = λ s i. tt;
  encrypt_keeps =
      λ s i c c' p h e x eq. (tt, (let q : h ≡ c ∷ replicate 15 0 = cc eq in rw q refl));
  decrypt-encrypt = λ s i c c' d p h e x y eq. (d, (let q : e ≡ 7 ∷ p = cc eq in rw q refl), tt);
}

abbrev same : Bytes → Bytes
same plain = plain

toy-KeepsStream : KeepsStream toy toy-IsLawful same
unfolding toy-IsLawful
toy-KeepsStream = record { decrypt_keeps = λ s c c' h e p x eq. tt }

abbrev empty : Option ℕ → Storage ℕ
empty limit = record {
  max_size_bytes = limit;
  index = [];
  current_size = 0;
  locked = false;
  files = [];
  contexts = [];
}

empty-IsSound : IsSound toy toy-IsLawful same (empty none)
unfolding find
empty-IsSound = record { belongs = λ s c there. cc there }

abbrev hello : Bytes
hello = 104 ∷ 105 ∷ []

-- put of other data, a get that fails and a remove of the other data in between.
get-put_example :
    (get toy same 9 hello
      (remove
        (5 ∷ [])
        (get toy same 3
          (1 ∷ [])
          (put toy same 2 (5 ∷ []) (put toy same 1 hello (empty none)).1).1).1).1).0
    ≡ done hello
unfolding put put_locked make_room encrypt_and_write get read_file remove forget find assign delete
get-put_example =
    get-put toy toy-IsLawful same toy-KeepsStream 1 9 hello hello (empty none) _ refl empty-IsSound
      refl refl
      (put_call 2 (5 ∷ []) (get_call 3 (1 ∷ []) (remove_call (5 ∷ []) (λ e. cc e) no_call))) refl

get-reopen_example :
    (get toy same 9 hello
      (reopen (λ a. 0) (λ a. 0) (some 4) (put toy same 1 hello (empty none)).1.files)).0
    ≡ done hello
unfolding put put_locked make_room encrypt_and_write find assign
get-reopen_example =
    get-reopen toy toy-IsLawful same (λ a. 0) (λ a. 0) toy-KeepsStream 1 9 (some 4) hello hello
      (empty none) _ refl empty-IsSound refl refl no_call

abbrev full : Storage ℕ
full = record (empty (some 3)) {
  index = (hello, record { size = 2; encrypted_size = 19; timestamp = 1; access_time = 1 }) ∷ [];
  current_size = 2;
}

put_waits_example :
    ((put toy same 2 (8 ∷ 9 ∷ []) full).0 ≡ waits)
    × ((b : Bytes)
        → ((put toy same 3 b (put toy same 2 (8 ∷ 9 ∷ []) full).1).0 ≡ waits)
          × ((get toy same 3 b (put toy same 2 (8 ∷ 9 ∷ []) full).1).0 ≡ waits)
          × ((remove b (put toy same 2 (8 ∷ 9 ∷ []) full).1).0 ≡ waits))
    × ((list_addresses (put toy same 2 (8 ∷ 9 ∷ []) full).1).0 ≡ waits)
unfolding find
put_waits_example =
    put_waits toy same 3 2 3 (8 ∷ 9 ∷ []) full _ [] refl refl (omega arith) (omega arith) refl refl

full-IsCounted : IsCounted full
unfolding find
full-IsCounted = record { counted = refl; unique = (refl, tt) }

storage-IsCounted_example :
    IsCounted (put toy same 2 (8 ∷ []) full).1
    × IsCounted (get toy same 2 hello full).1
    × IsCounted (remove hello full).1
storage-IsCounted_example = storage-IsCounted toy same 2 (8 ∷ []) hello full full-IsCounted
