-- ===== src/Stays/Handlers.antt =====
-- Every operation of src/modules/tenant-stays keeps what the changes of `Stays.Changes` keep.
pub mod Base
pub mod CheckIn
pub mod Update
pub mod Move
pub mod Close
