-- ===== src/Core/Task/Status.antt =====
-- The constants of `TaskStatus` in cmd/core/model/task.go, which are those of the protocol's enum.
use vantage_core.Prelude.{ℕ}

abbrev pub TaskStatus : Type 0
TaskStatus = ℕ

abbrev pub unspecified : TaskStatus
unspecified = 0

abbrev pub draft : TaskStatus
draft = 1

abbrev pub starting : TaskStatus
starting = 2

abbrev pub cannot_start : TaskStatus
cannot_start = 3

abbrev pub started : TaskStatus
started = 4

abbrev pub expiring : TaskStatus
expiring = 5

abbrev pub expired : TaskStatus
expired = 6

abbrev pub aborting : TaskStatus
aborting = 7

abbrev pub aborted : TaskStatus
aborted = 8

abbrev pub failed : TaskStatus
failed = 9

abbrev pub finishing : TaskStatus
finishing = 10

abbrev pub finished : TaskStatus
finished = 11
