-- ===== src/Vm.antt =====
-- src/vm/ViewmodelImpl.cpp: the view model opens documents, and wires the interactors.
pub mod Interactors
pub mod Network
pub mod Open
pub mod Replication
pub mod Disconnections
pub mod Graphs
pub mod Detached
pub mod RoundTrip
pub mod StoreCalls
pub mod Handlers
pub mod Received
pub mod Held
pub mod Opening
pub mod Echo
pub mod Leaves
pub mod OtherCalls
pub mod Grows
pub mod InStep
pub mod LateConnect
pub mod Concurrent
pub mod Locked
pub mod Reopening
pub mod Session
pub mod Replica
