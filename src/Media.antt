-- ===== src/Media.antt =====
-- What stands between a call's session and the relay: engine_media.go,
-- appdata.go, player.go and audio_playout.go.
pub mod Classify
pub mod Video
pub mod Receive
pub mod Reports
pub mod AppData
pub mod Player
pub mod Playout
