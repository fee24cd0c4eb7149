-- ===== src/Review.antt =====
-- The review of promises with their owner: reviewEngine.js and reviewActions.js, and what they read of
-- promiseLedger.js and operationalIntelligence.js.
pub mod Lifecycle
pub mod Promises
pub mod Sessions
pub mod Corrections
pub mod Answers
pub mod Instants
pub mod Actions
pub mod ActionResults
