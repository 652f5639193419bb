-- ===== src/Worker.antt =====
-- The media worker, workers/media-worker/src/media_worker.
pub mod Scheduling
pub mod Pipeline
pub mod Admission
pub mod Job
pub mod ControlPlane
