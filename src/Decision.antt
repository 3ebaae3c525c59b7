-- ===== src/Decision.antt =====
-- supervisor/core/decision_service.py: JevDecisionClient. Probabilities are whole
-- percentages. The transport, which the client calls with
-- one request, is a parameter: `none` is any failure of it. An answer of the service is a record
-- of its fields, with `none` for one that is missing or no number.
pub mod Questions
pub mod Choice
pub mod Close
pub mod Service
mod Tests
