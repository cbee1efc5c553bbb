-- ===== src/Reorder/Laws.antt =====
-- The loop delivers in order, and stops only where the next item is missing.
use seigr_toolset_transmissi.Common.{
  ℕ, zero, suc, ◌+◌, ◌≤◌, ◌<◌, ◌≡◌, refl, Bool, true, ◌&&◌, none, some, List, [], ◌∷◌, ◌++◌,
  append_assoc, leb, if◌then◌else◌, length, arith, Option-cases, inl, inr, ==_iff,
}
use seigr_toolset_transmissi.Common.Dict.{Dict, get, remove, get-remove, length-remove, nat_eq}
use seigr_toolset_transmissi.Reorder.{drain}

one_more : (n : ℕ) → n + 1 ≡ suc n
one_more n = omega arith

module _ {ℓ} {A : Type ℓ} where
  -- The first `n` items that the sender numbered.
  abbrev pub sent : (ℕ → A) → ℕ → List A
  sent msg zero = []
  sent msg (suc n) = sent msg n ++ (msg n ∷ [])

  -- The receiver's state against the numbers `seen` that have arrived: what came out is what was sent
  -- below `next`, all of which has arrived, and the buffer holds just the items from `next` on that
  -- have arrived.
  pub record IsReordered (msg : ℕ → A) (seen : ℕ → Bool) (next : ℕ) (buffer : Dict ℕ A)
      (out : List A) : Type ℓ where
    pub in_order : out ≡ sent msg next
    pub below : (k : ℕ) → k < next → seen k ≡ true
    pub buffered : (k : ℕ) → get k buffer ≡ (if leb next k && seen k then some (msg k) else none)

  drain_step :
      (msg : ℕ → A) (seen : ℕ → Bool) (next : ℕ) (buffer : Dict ℕ A) (out : List A) (item : A)
      → IsReordered msg seen next buffer out
      → get next buffer ≡ some item
      → IsReordered msg seen (suc next) (remove next buffer) (out ++ (item ∷ []))
  drain_step msg seen next buffer out item h e =
      let now : (seen next ≡ true) × (msg next ≡ item) = ground (arith, e, h.buffered next) in
      record {
        in_order = ground (arith, now, h.in_order);
        below = λ k lt. ground (arith, now, h.below k);
        buffered = λ k. ground (arith, get-remove next k buffer, h.buffered k, ==_iff next k);
      }

  pub drain-IsReordered :
      (fuel : ℕ) (msg : ℕ → A) (seen : ℕ → Bool) (next : ℕ) (buffer : Dict ℕ A) (out : List A)
      → IsReordered msg seen next buffer out
      → let d = drain fuel next buffer out in IsReordered msg seen d.next d.buffer d.out
  unfolding drain
  drain-IsReordered zero msg seen next buffer out h = h
  drain-IsReordered (suc fuel) msg seen next buffer out h = elim (Option-cases (get next buffer)) [
    | inl e ↦ rw (e, drain) h
    | inr (item, e) ↦
        rw (e, drain, one_more next)
          (drain-IsReordered fuel msg seen (suc next) (remove next buffer) (out ++ (item ∷ []))
            (drain_step msg seen next buffer out item h e))
  ]

  -- With the buffer's length as fuel the loop ends because the next item is not there.
  pub drain_stops :
      (fuel next : ℕ) (buffer : Dict ℕ A) (out : List A)
      → length buffer ≤ fuel
      → let d = drain fuel next buffer out in get d.next d.buffer ≡ none
  unfolding drain
  drain_stops zero next [] out h = unfold get in refl
  drain_stops zero next (x ∷ buffer) out h = absurd (omega arith)
  drain_stops (suc fuel) next buffer out h = elim (Option-cases (get next buffer)) [
    | inl e ↦ rw (e, drain) e
    | inr (item, e) ↦
        rw (e, drain)
          (drain_stops fuel (next + 1) (remove next buffer) (out ++ (item ∷ []))
            (omega (arith, length-remove next item buffer e)))
  ]

  -- What has come out before the loop stays in front, untouched.
  pub drain-append :
      (fuel next : ℕ) (buffer : Dict ℕ A) (front out : List A)
      → drain fuel next buffer (front ++ out)
        ≡ (let d = drain fuel next buffer out in record d { out = front ++ d.out })
  unfolding drain
  drain-append zero next buffer front out = refl
  drain-append (suc fuel) next buffer front out = elim (Option-cases (get next buffer)) [
    | inl e ↦ rw (e, drain) refl
    | inr (item, e) ↦
        rw (e, drain, append_assoc)
          (drain-append fuel (next + 1) (remove next buffer) front (out ++ (item ∷ [])))
  ]
