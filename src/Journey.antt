-- ===== src/Journey.antt =====
-- The way of a task through cmd/core/service/task_dispatcher.go, pkg/agentsdk/task_manager.go and
-- cmd/core/task_mqtt.go: core publishes it, an agent runs it, and core learns of its outcome.
pub mod Updates
pub mod Outcome
pub mod Mission
pub mod Registration
mod Tests
mod RegistrationTests
use vantage_core.Prelude.{ℕ, ◌≡◌, Option, some, none, Str}
use vantage_core.Core.ControlPlane
use vantage_core.Core.Dispatcher.{WireTask}
use vantage_core.Sdk.TaskManager.{Task, TaskAckStatus, TaskStatusPayload, ack_status_text}

-- A published task as the agent reads it, and a published status as core reads it.
abbrev pub task_of : WireTask → Task
task_of w = record { id = w.id; type = w.type; payload = w.payload }

abbrev pub read_status : TaskStatusPayload → ControlPlane.TaskStatusPayload
read_status p = record {
  task_id = p.task_id;
  status = ack_status_text p.status;
  error_message = p.error_message;
}

-- The JSON texts that the two sides exchange: each side reads what the other wrote.
pub record Codecs : Type 0 where
  pub encode_task : WireTask → Option Str
  pub decode_task : Str → Option Task
  pub encode_status : TaskStatusPayload → Option Str
  pub decode_status : Str → Option ControlPlane.TaskStatusPayload

pub record Agree (c : Codecs) : Type 0 where
  pub tasks :
      (w : WireTask) (b : Str) → c.encode_task w ≡ some b → c.decode_task b ≡ some (task_of w)
  pub statuses :
      (p : TaskStatusPayload) (b : Str)
      → c.encode_status p ≡ some b
      → c.decode_status b ≡ some (read_status p)
