-- ===== src/TaskWorker.antt =====
-- taskworker/: the workers that run tasks, each a limited number at once. A running task is a value of
-- `T`; how it ends is `End`.
pub mod Bounds
use nbagent.Base.{
  ℕ, zero, suc, ◌+◌, ◌≡◌, ◌<◌, Bool, true, false, Option, none, some, List, [], ◌∷◌, ◌++◌, Text,
  Dict, find, put, text_eq, for_each, is_some, length,
}

-- golang.org/x/sync/semaphore. `acquire` is an `Acquire` of one that returns nil, and `none` where it
-- has to wait; an `Acquire` that gives up leaves the semaphore as it is.
pub record Semaphore {ℓ} (S : Type ℓ) : Type ℓ where
  pub new_weighted : ℕ → S
  pub acquire : S → Option S
  pub release : S → S

-- `free` is what is left of the weight. `Acquire` returns nil only with weight that is free, whichever
-- of those that wait comes first; `Release` of what is held gives it back, and of more panics.
pub record Laws {ℓ} {S : Type ℓ} (sem : Semaphore S) : Type ℓ where
  pub size : S → ℕ
  pub free : S → ℕ
  pub size-new : (n : ℕ) → size (sem.new_weighted n) ≡ n
  pub free-new : (n : ℕ) → free (sem.new_weighted n) ≡ n
  pub size-acquire : (s s' : S) → sem.acquire s ≡ some s' → size s' ≡ size s
  pub free-acquire : (s s' : S) → sem.acquire s ≡ some s' → free s ≡ suc (free s')
  pub size-release : (s : S) → free s < size s → size (sem.release s) ≡ size s
  pub free-release : (s : S) → free s < size s → free (sem.release s) ≡ suc (free s)

pub record WorkerConfig : Type 0 where
  pub name : Text
  pub size : ℕ

-- `waiting` are the calls of `GoTask` and `DoTask` in their `Acquire`, `running` the goroutines that have
-- acquired and not released.
pub record TaskWorker {ℓ κ} (S : Type ℓ) (T : Type κ) : Type (ℓ ⊔ κ) where
  pub config : WorkerConfig
  pub weight : S
  pub waiting : List T
  pub running : List T

-- What `GoTask` of the manager comes to.
pub data Went {ℓ} (M : Type ℓ) : Type ℓ where
  panics : Went M
  waits : M → Went M

-- A task returns, or it panics and the panic is recovered.
pub data End : Type 0 where
  returned panicked : End

abbrev pub TaskWorkerManager {ℓ κ} : Type ℓ → Type κ → Type (ℓ ⊔ κ)
TaskWorkerManager S T = Dict Text (TaskWorker S T)

abbrev pub without {ℓ} : {T : Type ℓ} → ℕ → List T → List T
without i [] = []
without zero (t ∷ ts) = ts
without (suc i) (t ∷ ts) = t ∷ without i ts

module _ {ℓ κ} {S : Type ℓ} {T : Type κ} (sem : Semaphore S) where
  unfoldable pub new_task_worker : WorkerConfig → TaskWorker S T
  new_task_worker c = record {
    config = c;
    weight = sem.new_weighted c.size;
    waiting = [];
    running = [];
  }

  unfoldable pub init_one : WorkerConfig → TaskWorkerManager S T → TaskWorkerManager S T
  unfolding new_task_worker
  init_one c m = put c.name (new_task_worker c) m

  -- `Init`
  unfoldable pub init : List WorkerConfig → TaskWorkerManager S T
  unfolding init_one
  init configs = for_each init_one configs []

  -- `GoTask` of a worker up to its `Acquire`.
  unfoldable pub go_task : T → TaskWorker S T → TaskWorker S T
  go_task t w = record w { waiting = w.waiting ++ (t ∷ []) }

  -- `DoTask` comes to the same, and returns once its goroutine has run `finish`.
  unfoldable pub do_task : T → TaskWorker S T → TaskWorker S T
  do_task t w = record w { waiting = w.waiting ++ (t ∷ []) }

  -- The `Acquire` of a waiting task returns nil, and its goroutine starts; `none` while it waits on.
  unfoldable pub begin_task : ℕ → T → TaskWorker S T → Option (TaskWorker S T)
  begin_task i t w = elim (sem.acquire w.weight) [
    | none ↦ none
    | some s ↦
        some
          (record w { weight = s; waiting = without i w.waiting; running = w.running ++ (t ∷ []) })
  ]

  -- The context of a waiting task ends, and its call returns the error.
  unfoldable pub give_up : ℕ → TaskWorker S T → TaskWorker S T
  give_up i w = record w { waiting = without i w.waiting }

  -- A worker that is not configured is a panic of the caller.
  unfoldable pub manager_go_task : Text → T → TaskWorkerManager S T → Went (TaskWorkerManager S T)
  unfolding go_task
  manager_go_task name t m = elim (find name m) [
    | none ↦ panics
    | some w ↦ waits (put name (go_task t w) m)
  ]

  unfoldable pub manager_do_task : Text → T → TaskWorkerManager S T → Went (TaskWorkerManager S T)
  unfolding do_task
  manager_do_task name t m = elim (find name m) [
    | none ↦ panics
    | some w ↦ waits (put name (do_task t w) m)
  ]

  -- The deferred function of the goroutine: it releases however the task ended.
  unfoldable pub finish : End → ℕ → TaskWorker S T → TaskWorker S T
  finish returned i w = record w { weight = sem.release w.weight; running = without i w.running }
  finish panicked i w = record w { weight = sem.release w.weight; running = without i w.running }

  unfoldable pub manager_finish : Text → End → ℕ → TaskWorkerManager S T → TaskWorkerManager S T
  unfolding finish
  manager_finish name end i m = elim (find name m) [
    | none ↦ m
    | some w ↦ put name (finish end i w) m
  ]
