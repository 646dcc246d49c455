-- ===== src/Domain.antt =====
-- backend/internal/dispute/domain: the model of a dispute, with no input or output.
pub mod Vocabulary
pub mod Regime
pub mod Lifecycle
pub mod Ledger
pub mod Deadline
pub mod Risk
pub mod Notice
pub mod QuestionSets
pub mod Questionnaire
