-- ===== src/Ui.antt =====
-- web/src/components and the buttons of web/src: the parts that the pages are built of.
pub mod Ledger
pub mod Notice
pub mod Controls
pub mod Modal
pub mod Buttons
pub mod Tests
