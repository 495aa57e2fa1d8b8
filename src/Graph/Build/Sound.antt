-- ===== src/Graph/Build/Sound.antt =====
-- Every connection that `_build_connections` returns is justified by the descriptions of its ends.
mod Buckets
mod Forward
mod Feedback
pub use Buckets.{Objects, Objects-of_Distinct}
pub use Forward.*
pub use Feedback.*
