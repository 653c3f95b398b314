-- ===== src/Rtp/Payload/Tests.antt =====
-- Payloads of the three classes.
use meowcaller.Base.{◌≡◌, refl, true, [], ◌∷◌, Bytes}
use meowcaller.Rtp.Payload.{is_opus_dtx_payload}

abbrev quiet_payload : Bytes
quiet_payload = 0x88 ∷ []

quiet_payload_class : is_opus_dtx_payload quiet_payload ≡ true
quiet_payload_class = unfold is_opus_dtx_payload in refl
