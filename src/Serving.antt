-- ===== src/Serving.antt =====
-- tokenity/serving/distributed_openai.py, in parts: the control messages between the ranks, and the
-- groups in which the parameters of a model are loaded.
pub mod Control
pub mod Load
mod Tests
