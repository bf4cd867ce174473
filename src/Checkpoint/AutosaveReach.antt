-- ===== src/Checkpoint/AutosaveReach.antt =====
-- The invariant of a checkpoint among its threads, in every order of their steps.
use cbl.Checkpoint.{Checkpoint}
