-- ===== src/Media/Video/Gates.antt =====
-- When the gates let packets through.
use meowcaller.Base.{
  ℕ, ◌≡◌, refl, ◌⊎◌, Bool, true, false, Option, none, some, List, [], ◌∷◌, ◌++◌, arith, All, Bytes,
}
use meowcaller.Srtp.Crypto.{Crypto}
use meowcaller.Rtp.H264.{au_has_idr}
use meowcaller.Media.Video.{
  Duration, VideoSender, protect_access_unit, send_packets, transmit, send, enable, disable,
  request_keyframe,
}

-- A call of the sender.
pub data VideoOp : Type 0 where
  send_unit : Option (ℕ → Bytes → Bool) → Bytes → Duration → VideoOp
  set_enabled : Bool → VideoOp
  set_disabled : VideoOp
  keyframe_requested : VideoOp

-- The call gives no access unit with an IDR slice.
abbrev pub HasNoIdr : VideoOp → Type 0
HasNoIdr (send_unit ch au duration) = au_has_idr au ≡ false
HasNoIdr (set_enabled gated) = Unit {0}
HasNoIdr set_disabled = Unit {0}
HasNoIdr keyframe_requested = Unit {0}

-- The call makes the sender wait for a keyframe, whatever it did before.
abbrev pub AsksKeyframe : VideoSender → VideoOp → Type 0
AsksKeyframe vs (send_unit ch au duration) = ⊥
AsksKeyframe vs (set_enabled gated) =
    (vs.active ≡ false) ⊎ ((vs.send_gated ≡ true) × (gated ≡ false))
AsksKeyframe vs set_disabled = Unit {0}
AsksKeyframe vs keyframe_requested = Unit {0}

module _ (c : Crypto) where
  unfoldable pub video_step : VideoSender → VideoOp → VideoSender × List Bytes
  video_step vs (send_unit ch au duration) = send c vs ch au duration
  video_step vs (set_enabled gated) = (enable vs gated, [])
  video_step vs set_disabled = (disable vs, [])
  video_step vs keyframe_requested = (request_keyframe vs, [])

  -- All packets that a run of calls puts on the wire.
  unfoldable pub video_run : VideoSender → List VideoOp → List Bytes
  video_run vs [] = []
  video_run vs (op ∷ ops) = let (next, packets) = video_step vs op in packets ++ video_run next ops

  protect_access_unit-waiting :
      (vs : VideoSender) (au : Bytes) (duration : Duration)
      → vs.keyframe_required ≡ true
      → au_has_idr au ≡ false
      → protect_access_unit c vs au duration ≡ (vs, [])
  unfolding protect_access_unit
  protect_access_unit-waiting vs au duration k n = rw (n, k) (ground arith)

  transmit-nothing : (vs : VideoSender) (ch : ℕ → Bytes → Bool) → transmit c vs ch [] ≡ (vs, [])
  unfolding transmit send_packets
  transmit-nothing vs ch = refl

  send-waiting :
      (vs : VideoSender) (ch : Option (ℕ → Bytes → Bool)) (au : Bytes) (duration : Duration)
      → vs.keyframe_required ≡ true
      → au_has_idr au ≡ false
      → send c vs ch au duration ≡ (vs, [])
  unfolding send
  send-waiting vs none au duration k n = refl
  send-waiting vs (some ch) au duration k n =
      rw (protect_access_unit-waiting vs au duration k n, transmit-nothing vs ch) (ground arith)

  -- A call without an IDR neither sends nor ends the wait.
  video_step-waiting :
      (vs : VideoSender) (op : VideoOp)
      → vs.keyframe_required ≡ true
      → HasNoIdr op
      → ((video_step vs op).0.keyframe_required ≡ true) × ((video_step vs op).1 ≡ [])
  unfolding video_step enable disable request_keyframe
  video_step-waiting vs (send_unit ch au duration) k n =
      rw (send-waiting vs ch au duration k n) (k, refl)
  video_step-waiting vs (set_enabled gated) k n = (rw k refl, refl)
  video_step-waiting vs set_disabled k n = (refl, refl)
  video_step-waiting vs keyframe_requested k n = (refl, refl)

  video_run-waiting :
      (vs : VideoSender) (ops : List VideoOp)
      → vs.keyframe_required ≡ true
      → All HasNoIdr ops
      → video_run vs ops ≡ []
  unfolding video_run
  video_run-waiting vs [] k n = refl
  video_run-waiting vs (op ∷ ops) k (n, ns) =
      let (waiting, nothing) = video_step-waiting vs op k n in
      rw nothing (video_run-waiting (video_step vs op).0 ops waiting ns)

  asked_for :
      (vs : VideoSender) (op : VideoOp)
      → AsksKeyframe vs op
      → ((video_step vs op).0.keyframe_required ≡ true) × ((video_step vs op).1 ≡ [])
  unfolding video_step enable disable request_keyframe
  asked_for vs (send_unit ch au duration) a = absurd a
  asked_for vs (set_enabled gated) a = (ground (arith, a), refl)
  asked_for vs set_disabled a = (refl, refl)
  asked_for vs keyframe_requested a = (refl, refl)

  -- After disable, requestKeyframe, enable of an inactive sender, or the opening of its gate, no
  -- run of calls of the video sender puts a packet on the wire until an access unit with an IDR
  -- is sent.
  pub keyframe_gate :
      (vs : VideoSender) (op : VideoOp) (ops : List VideoOp)
      → AsksKeyframe vs op
      → All HasNoIdr ops
      → video_run vs (op ∷ ops) ≡ []
  unfolding video_run
  keyframe_gate vs op ops a n =
      let (waiting, nothing) = asked_for vs op a in
      rw nothing (video_run-waiting (video_step vs op).0 ops waiting n)
