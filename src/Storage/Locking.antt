-- ===== src/Storage/Locking.antt =====
-- Calls under the lock of storage/binary_storage.py.
use seigr_toolset_transmissi.Common.{◌≡◌, refl, ap, Bool, true, false, Bool-cases, inl, inr}
use seigr_toolset_transmissi.Common.Dict.{bytes_eq}
use seigr_toolset_transmissi.Storage.{
  Outcome, done, failed, waits, Storage, under_lock, with_lock, release, and_then,
}

module _ {C : Type 0} where
  -- A task that holds the lock and asks for it waits.
  pub with_lock-held {ℓ} :
      {A : Type ℓ} (body : Storage C → Outcome A × Storage C) (s : Storage C)
      → s.locked ≡ true
      → with_lock body s ≡ (waits, s)
  with_lock-held body s held = ap (λ b. under_lock b body s) held

  pub with_lock-free {ℓ} :
      {A : Type ℓ} (body : Storage C → Outcome A × Storage C) (s : Storage C)
      → s.locked ≡ false
      → with_lock body s ≡ release (body (record s { locked = true }))
  with_lock-free body s free = ap (λ b. under_lock b body s) free

-- What the parts of a call keep, the whole call keeps, if the lock does not matter to it.
module _ {C : Type 0} (P : Storage C → Type 0)
    (relock : (b : Bool) (s : Storage C) → P s → P (record s { locked = b })) where
  pub release-keeps : {A : Type 0} (r : Outcome A × Storage C) → P r.1 → P (release r).1
  release-keeps (done a, s) h = relock false s h
  release-keeps (failed e, s) h = relock false s h
  release-keeps (waits, s) h = h

  pub with_lock-keeps :
      {A : Type 0} (body : Storage C → Outcome A × Storage C) (s : Storage C)
      → ((t : Storage C) → t.locked ≡ true → P t → P (body t).1)
      → P s
      → P (with_lock body s).1
  with_lock-keeps body s keeps h = elim (Bool-cases s.locked) [
    | inl held ↦ rw (with_lock-held body s held) h
    | inr free ↦
        let t = record s { locked = true } in
        rw (with_lock-free body s free) (release-keeps (body t) (keeps t refl (relock true s h)))
  ]

  pub and_then-keeps :
      {A B : Type 0} (r : Outcome A × Storage C) (next : A → Storage C → Outcome B × Storage C)
      (s : Storage C)
      → r.1 ≡ s
      → ((a : A) → P (next a s).1)
      → P s
      → P (and_then r next).1
  and_then-keeps (done a, t) next s same keeps h = rw same (keeps a)
  and_then-keeps (failed e, t) next s same keeps h = rw same h
  and_then-keeps (waits, t) next s same keeps h = rw same h
