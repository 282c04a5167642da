-- ===== src/Worker.antt =====
-- packages/domain/src/worker.ts and packages/infrastructure/src/sqlite/worker-registry-repository.ts:
-- the workers and the table that registers them. A `Date` is its number of milliseconds. The table
-- is the list of its rows, whose key is `id`.
use automation.Prelude.{
  ℕ, String, str_eq, Bool, true, false, ◌&&◌, Option, none, some, List, [], ◌∷◌, Result, ok, err,
  if◌then◌else◌, find?,
}

pub data WorkerStatus : Type 0 where
  idle busy stopping unhealthy : WorkerStatus

pub record Worker : Type 0 where
  pub id : String
  pub repo_id : String
  pub hostname : String
  pub process_id : ℕ
  pub status : WorkerStatus
  pub heartbeat_at : ℕ

pub record CreateWorkerInput : Type 0 where
  pub id : String
  pub repo_id : String
  pub hostname : String
  pub process_id : ℕ
  pub now : ℕ

unfoldable pub create_worker : CreateWorkerInput → Worker
create_worker input = record {
  id = input.id;
  repo_id = input.repo_id;
  hostname = input.hostname;
  process_id = input.process_id;
  status = idle;
  heartbeat_at = input.now;
}

unfoldable pub heartbeat_worker : ℕ → Worker → Worker
heartbeat_worker now w = record w { heartbeat_at = now }

unfoldable pub mark_worker_busy : Worker → Worker
mark_worker_busy w = record w { status = busy }

abbrev pub is_leaving : WorkerStatus → Bool
is_leaving stopping = true
is_leaving unhealthy = true
is_leaving _ = false

unfoldable pub mark_worker_idle : Worker → Worker
mark_worker_idle w = if is_leaving w.status then w else record w { status = idle }

unfoldable pub mark_worker_stopping : Worker → Worker
mark_worker_stopping w = record w { status = stopping }

unfoldable pub mark_worker_unhealthy : Worker → Worker
mark_worker_unhealthy w = record w { status = unhealthy }

-- `INSERT ... ON CONFLICT(id) DO UPDATE`, of every column but the key.
unfoldable pub register : Worker → List Worker → List Worker
register w [] = w ∷ []
register w (x ∷ xs) = if str_eq x.id w.id then w ∷ xs else x ∷ register w xs

-- `WHERE id = ? AND repo_id = ?`.
abbrev pub is_worker : String → String → Worker → Bool
is_worker id repo w = str_eq w.id id && str_eq w.repo_id repo

unfoldable pub find_worker : String → String → List Worker → Option Worker
find_worker id repo rows = find? (is_worker id repo) rows

unfoldable pub update_worker : String → String → (Worker → Worker) → List Worker → List Worker
update_worker id repo change [] = []
update_worker id repo change (w ∷ ws) =
    (if is_worker id repo w then change w else w) ∷ update_worker id repo change ws

-- The columns that the two updates set.
abbrev pub write_status : Worker → Worker → Worker
write_status updated row = record row { status = updated.status }

abbrev pub write_heartbeat : Worker → Worker → Worker
write_heartbeat updated row = record row { heartbeat_at = updated.heartbeat_at }

-- The `Error` of a worker that is not registered, with its id.
pub data RegistryError : Type 0 where
  unknown_worker : String → RegistryError

unfoldable pub update_status :
    String → String → (Worker → Worker) → List Worker → Result RegistryError (List Worker)
unfolding find_worker update_worker
update_status id repo change rows = elim (find_worker id repo rows) [
  | none ↦ err (unknown_worker id)
  | some w ↦ ok (update_worker id repo (write_status (change w)) rows)
]

unfoldable pub heartbeat : String → String → ℕ → List Worker → Result RegistryError (List Worker)
unfolding find_worker update_worker heartbeat_worker
heartbeat id repo now rows = elim (find_worker id repo rows) [
  | none ↦ err (unknown_worker id)
  | some w ↦ ok (update_worker id repo (write_heartbeat (heartbeat_worker now w)) rows)
]

unfoldable pub mark_busy : String → String → List Worker → Result RegistryError (List Worker)
unfolding update_status mark_worker_busy
mark_busy id repo rows = update_status id repo mark_worker_busy rows

unfoldable pub mark_idle : String → String → List Worker → Result RegistryError (List Worker)
unfolding update_status mark_worker_idle
mark_idle id repo rows = update_status id repo mark_worker_idle rows

unfoldable pub mark_stopping : String → String → List Worker → Result RegistryError (List Worker)
unfolding update_status mark_worker_stopping
mark_stopping id repo rows = update_status id repo mark_worker_stopping rows

unfoldable pub mark_unhealthy : String → String → List Worker → Result RegistryError (List Worker)
unfolding update_status mark_worker_unhealthy
mark_unhealthy id repo rows = update_status id repo mark_worker_unhealthy rows

unfoldable pub deregister : String → List Worker → List Worker
deregister id [] = []
deregister id (w ∷ ws) = let rest = deregister id ws in if str_eq w.id id then rest else w ∷ rest
