-- ===== src/CwlSplit.antt =====
-- The Firehose transform of the data lake,
-- providers/aws/references/data-lake/lambda/cwl_split/index.py.
pub mod Runtime
pub mod Claude
pub mod Emf
pub mod Classify
pub mod Reingest
pub mod Handler
mod Samples
mod Tests
