-- ===== src/Drainer/Index.antt =====
-- `increment_stream_index` of crates/drainer/src/utils.rs. The two numbers are `u8`, and the release
-- build wraps around.
pub mod Cycle
use mercado.Prelude.{ℕ, if◌then◌else◌, ◌==◌, ◌+◌, ◌%◌}

-- The index of the next stream, and the number of jobs picked in the cycle so far.
unfoldable pub increment_stream_index : (index jobs_picked total_streams : ℕ) → ℕ × ℕ
increment_stream_index index jobs_picked total_streams =
    if index == (total_streams + 255) % 256 then (0, 0) else ((index + 1) % 256, jobs_picked)
