-- ===== src/Grading.antt =====
-- apps/api/src/api/grading: how a submission is scored. `Coding` is the deterministic grader of
-- coding.py. Scores and confidences are exact fractions; the source rounds them to floats.
pub mod Fraction
pub mod Coding
pub mod Scores
pub mod Grades
mod Tests
