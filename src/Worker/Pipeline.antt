-- ===== src/Worker/Pipeline.antt =====
-- workers/media-worker/src/media_worker/pipeline.py: the routing of a job's stages to free
-- providers, and the loop that re-routes after a failure.
pub mod Stages
pub mod Routing
pub mod Rotation
pub mod Offers
pub mod Resolver
pub mod Delivery
mod Tests
