-- ===== src/Dispatch.antt =====
-- dispatch.py: the loop over a request's method calls, from the raw calls to the responses.
pub mod Python
pub mod BackReferences
pub mod CreationIds
pub mod SetResponses
pub mod Registry
pub mod Run
mod Examples
