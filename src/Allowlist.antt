-- ===== src/Allowlist.antt =====
-- The perf-test WAF allowlist, scripts/perf_waf_allowlist.py, over the WAFv2 service.
pub mod Client
pub mod Retry
pub mod Dedupe
pub mod IpSet
pub mod Rule
pub mod Run
mod Samples
mod Tests
