-- ===== src/MetricsDiff.antt =====
-- common/metrics_diff.py: `measure`, with the REST calls that it makes, and `_tag_safe`. Python's
-- floats and the rounding of them are a parameter. What is printed is left out here; the table of
-- `compare` is in Table/Runs.
pub mod Tag
pub mod Stages
pub mod Calls
pub mod Measure
