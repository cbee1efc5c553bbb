-- ===== src/Storage/Retrieval.antt =====
-- What put has stored, get returns: storage/binary_storage.py.
use seigr_toolset_transmissi.Common.{
  ℕ, ◌≡◌, ◌≢◌, refl, sym, ap, ◌∙◌, ◌++◌, Bytes, true, false, Bool-cases, Option-cases, some, inl,
  inr, take_prefix, drop_prefix,
}
use seigr_toolset_transmissi.Common.Dict.{
  get as find, get-put as find-assign, bytes_eq, bytes_beq, bytes_beq_iff,
}
use seigr_toolset_transmissi.Streaming.{Chunks, IsLawful}
use seigr_toolset_transmissi.Storage.{
  Metadata, done, Storage, release, storage_session, stream_context, keep_context, read_file,
  read_indexed, get,
}
use seigr_toolset_transmissi.Storage.Locking.{with_lock-free}

pub same_bytes : (a : Bytes) → bytes_beq a a ≡ true
same_bytes a = (bytes_beq_iff a a).1 refl

pub other_bytes : (a b : Bytes) → a ≢ b → bytes_beq a b ≡ false
other_bytes a b differ = elim (Bool-cases (bytes_beq a b)) [
  | inl same ↦ absurd (differ ((bytes_beq_iff a b).0 same))
  | inr other ↦ other
]

module _ {C : Type 0} (k : Chunks C) (lawful : IsLawful k) (digest : Bytes → Bytes) where
  -- Every cached context is one of its stream.
  pub record IsSound (s : Storage C) : Type 0 where
    pub belongs :
        (session : Bytes) (c : C) → find session s.contexts ≡ some c → lawful.BelongsTo session 0 c

  -- The index and the files hold these data, sealed by a context of the address.
  pub record IsStored (address plain : Bytes) (s : Storage C) : Type 0 where
    pub entry : Metadata
    pub header : Bytes
    pub cipher : Bytes
    pub before : C
    pub after : C
    pub addressed : digest plain ≡ address
    pub listed : find address s.index ≡ some entry
    pub filed : find address s.files ≡ some (header ++ cipher)
    pub sealer : lawful.BelongsTo (storage_session address) 0 before
    pub sealed : k.encrypt_chunk before plain ≡ some (after, (header, cipher))

  pub stream_context-Belongs :
      (session : Bytes) (s : Storage C)
      → IsSound s
      → lawful.BelongsTo session 0 (stream_context k session s)
  stream_context-Belongs session s sound = elim (Option-cases (find session s.contexts)) [
    | inl fresh ↦ rw (stream_context, fresh) (lawful.created session 0)
    | inr cached ↦ rw (stream_context, cached.1) (sound.belongs session (cached.0) (cached.1))
  ]

  -- Stored data are returned.
  pub get-IsStored :
      (later : ℕ) (address plain : Bytes) (s : Storage C)
      → s.locked ≡ false
      → IsSound s
      → IsStored address plain s
      → (get k digest later address s).0 ≡ done plain
  unfolding get read_file
  get-IsStored later address plain s free sound kept =
      let held = record s { locked = true } in
      let c = stream_context k (storage_session address) s in
      let wide =
        (lawful.encrypt_keeps (storage_session address) 0 kept.before kept.after plain kept.header
          kept.cipher kept.sealer kept.sealed).1 in
      let (d, opened, _) =
        lawful.decrypt-encrypt (storage_session address) 0 kept.before kept.after c plain
          kept.header kept.cipher kept.sealer
          (stream_context-Belongs (storage_session address) s sound) kept.sealed in
      let same = ap (λ a. bytes_beq a address) kept.addressed ∙ same_bytes address in
      ap (λ r. r.0) (with_lock-free _ s free)
      ∙ ap (λ m. (release (read_indexed k digest later address m held)).0) kept.listed
      ∙ ap (λ f. (release (read_file k digest later address kept.entry f held)).0) kept.filed
      ∙ rw
          (
            take_prefix 16 kept.header kept.cipher wide,
            drop_prefix 16 kept.header kept.cipher wide,
            opened,
            same,
          )
          refl

  -- Both are about the dictionaries alone.
  module _ (s t : Storage C) where
    pub relisted-IsStored :
        (address plain : Bytes) (m : Metadata)
        → find address t.index ≡ some m
        → find address t.files ≡ find address s.files
        → IsStored address plain s
        → IsStored address plain t
    relisted-IsStored address plain m listed files kept = record {
      entry = m;
      header = kept.header;
      cipher = kept.cipher;
      before = kept.before;
      after = kept.after;
      addressed = kept.addressed;
      listed = listed;
      filed = files ∙ kept.filed;
      sealer = kept.sealer;
      sealed = kept.sealed;
    }

    pub same-IsStored :
        (address plain : Bytes)
        → find address t.index ≡ find address s.index
        → find address t.files ≡ find address s.files
        → IsStored address plain s
        → IsStored address plain t
    same-IsStored address plain index files kept =
        relisted-IsStored address plain kept.entry (index ∙ kept.listed) files kept

    pub same-IsSound : t.contexts ≡ s.contexts → IsSound s → IsSound t
    same-IsSound contexts sound = record {
      belongs =
          λ session c there. sound.belongs session c (ap (find session) (sym contexts) ∙ there);
    }

  pub keep_context-IsSound :
      (session : Bytes) (c : C) (s : Storage C)
      → lawful.BelongsTo session 0 c
      → IsSound s
      → IsSound (keep_context k session c s)
  keep_context-IsSound session c s own sound = record {
    belongs = λ other d there.
        let kept = sym (find-assign session other c s.contexts) ∙ there in
        elim (Bool-cases (bytes_beq session other)) [
          | inl same ↦
              let same_session = (bytes_beq_iff session other).0 same in
              let same_context : c ≡ d = cc (rw same at kept) in
              rw (← same_session) (rw (← same_context) own)
          | inr differ ↦ sound.belongs other d (rw differ at kept)
        ];
  }
