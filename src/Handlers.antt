-- ===== src/Handlers.antt =====
-- src/session.rs: the handlers of a hub session and the tasks they run. An `Arc<Mutex<Tasks>>` is
-- an address of a store; each function below is one critical section of the code, so that an
-- interleaving of threads is a sequence of them.
pub mod Store
pub mod Schedule
pub mod Invariant
pub mod Removal
pub mod Closing
pub mod Ids
