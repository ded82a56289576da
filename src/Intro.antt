-- ===== src/Intro.antt =====
-- intro: the dining philosophers and the guarded object.
pub mod Dining
pub mod Guarded
pub mod Tests
