-- ===== src/Integration.antt =====
-- runtime/src/human_cos/integration: the disagreement nodes with the preservation of dissent
-- (Disagreement), the disclosure of sources to reviewers (CrossExam), and the gates that both put on
-- the state machine (Gates), with the gate of runtime/src/human_cos/world/causal.py.
pub mod Disagreement
pub mod CrossExam
pub mod Gates
