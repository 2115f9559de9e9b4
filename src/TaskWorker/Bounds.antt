-- ===== src/TaskWorker/Bounds.antt =====
-- A worker runs at most as many tasks as it is configured for.
use nbagent.Base.{
  ℕ, zero, suc, ◌+◌, ◌≤◌, ◌<◌, ◌≡◌, refl, ap, ◌⊎◌, inl, inr, none, get_elem?, ◌∙◌, some, List, [],
  ◌∷◌, ◌++◌, arith, Text, Dict, find, put, text_eq, text_beq, for_each_inv, find-put, find-nil,
  length, length-append, subst, Bool-cases, Option-cases,
}
use nbagent.TaskWorker.{
  Semaphore, Laws, WorkerConfig, TaskWorker, waits, begin_task, give_up, do_task, manager_do_task,
  End, returned, panicked, new_task_worker, init_one, init, go_task, manager_go_task, finish,
  manager_finish, without,
}

zero_or_suc : (n : ℕ) → (n ≡ 0) ⊎ ((k : ℕ) × (n ≡ suc k))
zero_or_suc zero = inl refl
zero_or_suc (suc k) = inr (k, refl)

module _ {ℓ κ} {S : Type ℓ} {T : Type κ} {sem : Semaphore S} (laws : Laws sem) where
  -- What is free and what runs make up the size.
  abbrev pub IsBalanced : TaskWorker S T → Type 0
  IsBalanced w =
      (length w.running + laws.free w.weight ≡ w.config.size) × (laws.size w.weight ≡ w.config.size)

  abbrev pub AreBalanced : Dict Text (TaskWorker S T) → Type (ℓ ⊔ κ)
  AreBalanced m = (name : Text) (w : TaskWorker S T) → find name m ≡ some w → IsBalanced w

  -- A task is given to a worker, a waiting task begins or gives up, or a running task ends.
  pub data Reach (m : Dict Text (TaskWorker S T)) : Dict Text (TaskWorker S T) → Type (ℓ ⊔ κ) where
    here : Reach m m
    went :
        {m' m'' : Dict Text (TaskWorker S T)} (name : Text) (t : T)
        → Reach m m'
        → (manager_go_task sem name t m' ≡ waits m'') ⊎ (manager_do_task sem name t m' ≡ waits m'')
        → Reach m m''
    began :
        {m' : Dict Text (TaskWorker S T)} (name : Text) (i : ℕ) (t : T) (w w' : TaskWorker S T)
        → Reach m m'
        → find name m' ≡ some w
        → get_elem? w.waiting i ≡ some t
        → begin_task sem i t w ≡ some w'
        → Reach m (put name w' m')
    gave_up :
        {m' : Dict Text (TaskWorker S T)} (name : Text) (i : ℕ) (w : TaskWorker S T)
        → Reach m m'
        → find name m' ≡ some w
        → Reach m (put name (give_up sem i w) m')
    ended :
        {m' : Dict Text (TaskWorker S T)} (name : Text) (end : End) (i : ℕ) (w : TaskWorker S T)
        → Reach m m'
        → find name m' ≡ some w
        → i < length w.running
        → Reach m (manager_finish sem name end i m')

  put-AreBalanced :
      (name : Text) (w : TaskWorker S T) (m : Dict Text (TaskWorker S T))
      → IsBalanced w
      → AreBalanced m
      → AreBalanced (put name w m)
  put-AreBalanced name w m b h k v e = elim (Bool-cases (text_beq name k)) [
    | inl same ↦
        let v-eq : w ≡ v = ground (arith, find-put k name w m, e) in subst IsBalanced v-eq b
    | inr other ↦ h k v (ground (arith, find-put k name w m, e))
  ]

  init-AreBalanced : (configs : List WorkerConfig) → AreBalanced (init sem configs)
  unfolding init init_one new_task_worker
  init-AreBalanced configs =
      for_each_inv AreBalanced (init_one sem)
        (λ c m h.
          let whole : IsBalanced (new_task_worker sem c) =
            (omega (arith, laws.free-new c.size), laws.size-new c.size) in
          put-AreBalanced c.name (new_task_worker sem c) m whole h)
        configs [] (λ k w e. absurd (ground (arith, find-nil {V = TaskWorker S T} k)))

  begin_task-IsBalanced :
      (i : ℕ) (t : T) (w w' : TaskWorker S T)
      → begin_task sem i t w ≡ some w'
      → IsBalanced w
      → IsBalanced w' × (length w.running < w.config.size)
  unfolding begin_task
  begin_task-IsBalanced i t w w' e (b, whole) = elim (Option-cases (sem.acquire w.weight)) [
    | inl f ↦ absurd (ground (arith, e, f))
    | inr (s, f) ↦
        let is : record w {
          weight = s;
          waiting = without i w.waiting;
          running = w.running ++ (t ∷ []);
        }
            ≡ w' =
          ground (arith, e, f) in
        let taken = laws.free-acquire w.weight s f in
        (
          subst IsBalanced is (
            omega (arith, b, taken, length-append w.running (t ∷ [])),
            laws.size-acquire w.weight s f ∙ whole,
          ),
          omega (arith, b, taken),
        )
  ]

  length-without : (i : ℕ) (ts : List T) → i < length ts → length ts ≡ suc (length (without i ts))
  length-without i [] h = absurd (omega arith)
  length-without zero (t ∷ ts) h = refl
  length-without (suc i) (t ∷ ts) h = ap suc (length-without i ts (omega arith))

  finish-IsBalanced :
      (end : End) (i : ℕ) (w : TaskWorker S T)
      → i < length w.running
      → IsBalanced w
      → IsBalanced (finish sem end i w)
  unfolding finish
  finish-IsBalanced returned i w low (b, whole) =
      let fewer = length-without i w.running low in
      let held : laws.free w.weight < laws.size w.weight = omega (arith, b, whole, fewer) in
      (
        omega (arith, b, fewer, laws.free-release w.weight held),
        laws.size-release w.weight held ∙ whole,
      )
  finish-IsBalanced panicked i w low (b, whole) =
      let fewer = length-without i w.running low in
      let held : laws.free w.weight < laws.size w.weight = omega (arith, b, whole, fewer) in
      (
        omega (arith, b, fewer, laws.free-release w.weight held),
        laws.size-release w.weight held ∙ whole,
      )

  Reach-AreBalanced :
      {m m' : Dict Text (TaskWorker S T)} → AreBalanced m → Reach m m' → AreBalanced m'
  unfolding manager_go_task manager_do_task manager_finish go_task do_task give_up
  Reach-AreBalanced h here = h
  Reach-AreBalanced h (went {m'} {m''} name t r e) =
      let b = Reach-AreBalanced h r in
      elim (Option-cases (find name m')) [
        | inl f ↦ absurd (ground (arith, e, f))
        | inr (w, f) ↦
            let is : put name (go_task sem t w) m' ≡ m'' = ground (arith, e, f) in
            subst AreBalanced is (put-AreBalanced name (go_task sem t w) m' (b name w f) b)
      ]
  Reach-AreBalanced h (began {m'} name i t w w' r f _ e) =
      let b = Reach-AreBalanced h r in
      put-AreBalanced name w' m' (begin_task-IsBalanced i t w w' e (b name w f)).0 b
  Reach-AreBalanced h (gave_up {m'} name i w r f) =
      let b = Reach-AreBalanced h r in put-AreBalanced name (give_up sem i w) m' (b name w f) b
  Reach-AreBalanced h (ended {m'} name end i w r f low) =
      let b = Reach-AreBalanced h r in
      rw (f, manager_finish)
        (put-AreBalanced name (finish sem end i w) m' (finish-IsBalanced end i w low (b name w f))
          b)

  -- Over any semaphore that gives only weight that is free and takes back what is held: after tasks are
  -- given to the workers, wait, begin, give up, return and panic, in any order, a worker runs at most as
  -- many tasks as it is configured for, and a waiting task begins only while it runs fewer.
  pub workers_bounded :
      (configs : List WorkerConfig) (m : Dict Text (TaskWorker S T)) (name : Text)
      (w : TaskWorker S T) (i : ℕ) (t : T)
      → Reach (init sem configs) m
      → find name m ≡ some w
      → (length w.running ≤ w.config.size)
        × ((begin_task sem i t w ≡ none) ⊎ (length w.running < w.config.size))
  workers_bounded configs m name w i t r f =
      let b = Reach-AreBalanced (init-AreBalanced configs) r name w f in
      (
        omega (arith, b.0),
        elim (Option-cases (begin_task sem i t w)) [
          | inl e ↦ inl e
          | inr (w', e) ↦ inr (begin_task-IsBalanced i t w w' e b).1
        ],
      )
