-- ===== src/Frame/Dispatcher/Laws.antt =====
-- A frame reaches the handler of its type, and the two tables stay in their ranges.
use seigr_toolset_transmissi.Common.{
  true, false, ◌≡◌, refl, some, Result, ok, err, if◌then◌else◌, arith, Option-cases, inl, inr,
}
use seigr_toolset_transmissi.Common.Dict.{get, get-put, get-remove, int_eq, int_beq_iff, ◌===◌}
use seigr_toolset_transmissi.Common.Int.{ℤ}
use seigr_toolset_transmissi.Frame.{Frame, is_custom_type, is_stt_type}
use seigr_toolset_transmissi.Frame.Dispatcher.{
  DispatchError, no_stt_handler, Handler, Dispatcher, register_custom_handler, register_stt_handler,
  dispatch, unregister_custom_handler,
}

module _ {R : Type 0} where
  -- Each table holds handlers for its own range of types only.
  pub record InRange (d : Dispatcher R) : Type 0 where
    pub custom :
        (t : ℤ) (h : Handler R) → get t d.custom_handlers ≡ some h → is_custom_type t ≡ true
    pub stt : (t : ℤ) (h : Handler R) → get t d.stt_handlers ≡ some h → is_stt_type t ≡ true

  -- A registration that is refused leaves nothing to check.
  abbrev pub ResultInRange : Result DispatchError (Dispatcher R) → Type 0
  ResultInRange (ok d) = InRange d
  ResultInRange (err e) = Unit

  custom-InRange :
      (d d' : Dispatcher R) (t : ℤ) (h : Handler R)
      → InRange d
      → register_custom_handler t h d ≡ ok d'
      → InRange d'
  unfolding register_custom_handler
  custom-InRange d d' t h v e = record {
    custom =
        λ u k p. ground (arith, get-put t u h d.custom_handlers, v.custom u k, int_beq_iff t u);
    stt = λ u k p. ground (arith, v.stt u k);
  }

  stt-InRange :
      (d d' : Dispatcher R) (t : ℤ) (h : Handler R)
      → InRange d
      → register_stt_handler t h d ≡ ok d'
      → InRange d'
  unfolding register_stt_handler
  stt-InRange d d' t h v e = record {
    custom = λ u k p. ground (arith, v.custom u k);
    stt = λ u k p. ground (arith, get-put t u h d.stt_handlers, v.stt u k, int_beq_iff t u);
  }

  ResultInRange-of :
      (r : Result DispatchError (Dispatcher R))
      → ((d : Dispatcher R) → r ≡ ok d → InRange d)
      → ResultInRange r
  ResultInRange-of (ok d) h = h d refl
  ResultInRange-of (err e) h = tt

  -- Registration and removal keep each table in its range of types.
  pub registration-InRange :
      (d : Dispatcher R) (t : ℤ) (h : Handler R)
      → InRange d
      → ResultInRange (register_custom_handler t h d)
        × ResultInRange (register_stt_handler t h d)
        × InRange (unregister_custom_handler t d)
  registration-InRange d t h v = (
    ResultInRange-of (register_custom_handler t h d) (λ d' e. custom-InRange d d' t h v e),
    ResultInRange-of (register_stt_handler t h d) (λ d' e. stt-InRange d d' t h v e),
    unfold unregister_custom_handler in
        record {
          custom = λ u k p. ground (arith, get-remove t u d.custom_handlers, v.custom u k);
          stt = v.stt;
        },
  )

  -- After a custom registration a frame of that type is handled by it, and any other frame as before.
  pub dispatch-register :
      (d d' : Dispatcher R) (t : ℤ) (h : Handler R) (f : Frame)
      → register_custom_handler t h d ≡ ok d'
      → dispatch d' f ≡ (if t === f.frame_type then ok (h f) else dispatch d f)
  unfolding register_custom_handler dispatch
  dispatch-register d d' t h f e =
      ground (arith, get-put t f.frame_type h d.custom_handlers, int_beq_iff t f.frame_type)

  -- With the tables in range, a frame whose type is in neither range is refused.
  pub dispatch_range :
      (d : Dispatcher R) (f : Frame)
      → InRange d
      → is_custom_type f.frame_type ≡ false
      → is_stt_type f.frame_type ≡ false
      → dispatch d f ≡ err no_stt_handler
  unfolding dispatch
  dispatch_range d f v not_custom not_stt = elim (Option-cases (get f.frame_type d.stt_handlers)) [
    | inl e ↦ ground (arith, e)
    | inr (h, e) ↦ ground (arith, e, v.stt f.frame_type h)
  ]
