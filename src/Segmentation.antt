-- ===== src/Segmentation.antt =====
-- src/storage/segmentation.ts: where a native session is cut into segments. A gap is counted in
-- milliseconds, `gapHours` being that count over 3600000, and not negative. A ratio is the pair of its
-- parts; the comparisons with 0.2 and 0.5 are exact, as those of the doubles are for sets of fewer than
-- 2 ^ 50 files.
pub mod Overlap
pub mod Boundary
pub mod Jaccard
pub mod Laws
mod Examples
