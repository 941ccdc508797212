-- ===== src/Templates.antt =====
-- pkg/template: templates and the objects they are made of.
pub mod Process
pub mod Load
pub mod LoadLaws
pub mod FilterLaws
pub mod Tests
