-- ===== src/Session/Timing.antt =====
-- The round-trip samples and the throughput window of STTSession (session/session.py).
use seigr_toolset_transmissi.Common.{
  ℕ, ◌+◌, ◌-◌, ◌≤◌, ◌≡◌, refl, List, [], ◌∷◌, ◌++◌, true, Option, none, some, Option-cases, inl,
  inr, ◌==◌, ==_iff, length, length-drop, arith,
}
use seigr_toolset_transmissi.Common.Dict.{get, put, remove, get-put, get-remove, nat_eq}
use seigr_toolset_transmissi.Session.{
  Session, record_frame_sent, record_frame_received, start_timing, stop_timing, sample, keep_recent,
  update_activity, max_rtt_samples,
}

length-keep_recent : (samples : List ℕ) → length (keep_recent samples) ≤ max_rtt_samples
unfolding keep_recent
length-keep_recent samples = ground (arith, length-drop (length samples - max_rtt_samples) samples)

-- No received frame makes the list of round-trip samples longer than its maximum.
pub record_frame_received_bound :
    (now size : ℕ) (frame_id : Option ℕ) (s : Session)
    → length s.rtt_samples ≤ max_rtt_samples
    → length (record_frame_received now size frame_id s).rtt_samples ≤ max_rtt_samples
unfolding record_frame_received stop_timing update_activity
record_frame_received_bound now size none s h = h
record_frame_received_bound now size (some frame_id) s h =
    elim (Option-cases (get frame_id s.frame_send_times)) [
      | inl e ↦ rw (e, stop_timing, sample) h
      | inr (t, e) ↦
          rw (e, stop_timing, sample) (length-keep_recent (s.rtt_samples ++ ((now - t) ∷ [])))
    ]

-- A frame that is sent with an identifier and answered with the same one adds just the time between
-- the two to the samples, and its identifier waits no more.
pub record_frame_received-sent :
    (window t0 t1 size0 size1 frame_id : ℕ) (s : Session)
    → let after =
        record_frame_received t1 size1
          (some frame_id)
          (record_frame_sent window t0 size0 (some frame_id) s) in
      (after.rtt_samples ≡ keep_recent (s.rtt_samples ++ ((t1 - t0) ∷ [])))
      × (get frame_id after.frame_send_times ≡ none)
      × (after.frames_sent ≡ s.frames_sent + 1)
      × (after.frames_received ≡ s.frames_received + 1)
unfolding record_frame_received record_frame_sent start_timing stop_timing update_activity
record_frame_received-sent window t0 t1 size0 size1 frame_id s =
    let same : (frame_id == frame_id) ≡ true = (==_iff frame_id frame_id).1 refl in
    let there : get frame_id (put frame_id t0 s.frame_send_times) ≡ some t0 =
      rw (get-put frame_id frame_id t0 s.frame_send_times, same) refl in
    let gone : get frame_id (remove frame_id (put frame_id t0 s.frame_send_times)) ≡ none =
      rw (get-remove frame_id frame_id (put frame_id t0 s.frame_send_times), same) refl in
    rw (there, stop_timing, sample) (refl, gone, refl, refl)
