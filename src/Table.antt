-- ===== src/Table.antt =====
-- The telegram list of frontend/src/components/TelegramTable.tsx: its state and its handlers, without
-- the rendering and the pixels. A property that the parent may lift is one field of the state.
pub mod Flags
pub mod DeltaSort
pub mod Marks
pub mod Follow
pub mod Metrics
mod Tests
