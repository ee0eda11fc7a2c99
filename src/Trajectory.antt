-- ===== src/Trajectory.antt =====
-- The execution trajectory of app/calibration.py: the observable class of each completed review,
-- the hash chain of the classes, and the verifier that builds the trajectory again.
pub mod Reviews
pub mod Records
pub mod Chain
pub mod Supported
pub mod Classified
pub mod Recorded
