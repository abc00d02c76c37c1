-- ===== src/Requests.antt =====
-- Requests: `class Req` of fastmoe/backend/task.py, their admission, and what is sent back
-- (`ModelRpcServer` in fastmoe/serve/router/model_rpc.py).
pub mod Req
pub mod Admission
pub mod Accepted
pub mod Decoding
pub mod Finishing
pub mod Input
pub mod Sampling
mod Tests
