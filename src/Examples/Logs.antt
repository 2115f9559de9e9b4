-- ===== src/Examples/Logs.antt =====
-- A log file, a task worker and a server that looks for a port, at concrete inputs.
use nbagent.Base.{
  nat_eq, find, put, ◌-◌, nat_beq, if◌then◌else◌, suc, ◌⊎◌, inl, length, ℕ, ◌+◌, ◌≡◌, ◌≤◌, ◌<◌,
  refl, Bool, none, some, true, false, List, [], ◌∷◌, arith, Text, codes, text_eq, text_beq,
}
use nbagent.TaskWorker.{
  Semaphore, Laws, WorkerConfig, TaskWorker, begin_task, init, manager_go_task,
}
use nbagent.TaskWorker.Bounds
use nbagent.TaskWorker.Bounds.{workers_bounded, went, began}
use nbagent.Log.LogFile.{LogFile, Clock, Answers, SyncStatus, LogRotate}
use nbagent.Log.LogFile.Levels.{level_warn}
use nbagent.Log.LogFile.Order.{Event, run, IsNext, wrote, levelled, flushed, run-keeps_order}
use nbagent.Network.Dialling.{address, listening, new_server}
use nbagent.Network.Dialling.Ports.{new_server-first}

abbrev quiet : LogFile
quiet = record {
  filename = codes "a.log";
  std_flag = false;
  newlinestr = 10 ∷ [];
  level = level_warn;
  status = SyncStatus.init;
  use_cache = true;
  cache_data = [];
  datach = [];
  rotate = LogRotate.rotate_none;
  file = none;
  files = [];
}

abbrev clock : Clock
clock = record { rfc3339 = codes "t"; date = codes "d"; hour = codes "h" }

abbrev fine : Answers
fine = record { gone = false; first = true; second = true; watched = true; writes = true }

-- A debug message is left out, and a warning is taken.
abbrev events : List Event
events =
    levelled clock fine true 1 (codes "x")
    ∷ levelled clock fine true level_warn (codes "y")
    ∷ flushed clock
    ∷ wrote clock fine (codes "z")
    ∷ []

run-keeps_order_example :
    (new : Text) × (lf' : LogFile) × (run events quiet ≡ some (new, lf')) × IsNext quiet new lf'
run-keeps_order_example =
    run-keeps_order events quiet (record { cached = refl; one_file = refl; bounded = omega arith })

-- A counting semaphore: what is free, and its size.
abbrev counter : Semaphore (ℕ × ℕ)
counter = record {
  new_weighted = λ n. (n, n);
  acquire = λ s. if nat_beq s.0 0 then none else some (s.0 - 1, s.1);
  release = λ s. (suc s.0, s.1);
}

counter_laws : Laws counter
counter_laws = record {
  size = λ s. s.1;
  free = λ s. s.0;
  size-new = λ n. refl;
  free-new = λ n. refl;
  size-acquire = λ s s' e. ground arith;
  free-acquire = λ s s' e. ground arith;
  size-release = λ s h. refl;
  free-release = λ s h. refl;
}

abbrev tcp : WorkerConfig
tcp = record { name = codes "tcp_msg"; size = 2 }

abbrev waiting : TaskWorker (ℕ × ℕ) ℕ
waiting = record { config = tcp; weight = (2, 2); waiting = 7 ∷ []; running = [] }

abbrev busy : TaskWorker (ℕ × ℕ) ℕ
busy = record { config = tcp; weight = (1, 2); waiting = []; running = 7 ∷ [] }

workers_bounded_example :
    (length busy.running ≤ 2) × ((begin_task counter 0 8 busy ≡ none) ⊎ (length busy.running < 2))
unfolding manager_go_task find init put text_beq begin_task
workers_bounded_example =
    workers_bounded counter_laws (tcp ∷ []) ((codes "tcp_msg", busy) ∷ []) (codes "tcp_msg") busy 0
      8
      (began (codes "tcp_msg") 0 7 waiting busy (went (codes "tcp_msg") 7 Bounds.here (inl refl))
        refl refl refl)
      refl

-- The wanted port is taken, and the search goes on at the next.
abbrev second_try : ℕ → Text → Bool
second_try i name = nat_beq i 1

abbrev port_text : ℕ → Text
port_text port = port ∷ []

new_server-first_example :
    (k : ℕ) × (k ≤ 1)
    × (second_try k (address port_text [] (8800 + k)) ≡ true)
    × ((i : ℕ) → i < k → second_try i (address port_text [] (8800 + i)) ≡ false)
    × (new_server 5 port_text second_try [] 8800 true
        ≡ listening (record { ip = []; port = 8800 + k }))
new_server-first_example =
    new_server-first port_text [] 1 5 second_try 8800 (omega arith) (omega arith) (omega arith) refl
