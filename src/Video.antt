-- ===== src/Video.antt =====
-- The page of one video, frontend/src/components/video: its state and polling in `Detail`, the player of
-- its stream in `Player`.
pub mod Player
pub mod Detail
