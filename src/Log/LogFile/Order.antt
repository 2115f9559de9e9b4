-- ===== src/Log/LogFile/Order.antt =====
-- What stands in the file and in the queue is what was accepted, in order.
pub mod Queues
use mathlib.Core.List.{append_assoc, append-nil}
use nbagent.Base.{
  ℕ, zero, suc, ◌≤◌, ◌≡◌, refl, sym, ap, ◌∙◌, ◌⊎◌, text_beq, inl, inr, Bool, true, false, not,
  Option, none, some, List, [], ◌∷◌, ◌++◌, arith, Text, find, find-put_same, text_eq, length,
  length-append, ltb, get_or_empty, if◌then◌else◌, Bool-cases,
}
use nbagent.Log.LogFile.OldQueue.{join}
use nbagent.Log.LogFile.Levels.{titled, write_level_msg}
use nbagent.Log.LogFile.{
  LogFile, LogRotate, Clock, Answers, append_cache2, append_file, line_of, write, flush_loop,
  flush2, batch, log_filename, cap_datach, SyncStatus,
}

pub join-append : (xs ys : List Text) → join (xs ++ ys) ≡ join xs ++ join ys
join-append [] ys = refl
join-append (x ∷ xs) ys = ap (◌++◌ x) (join-append xs ys) ∙ sym (append_assoc x (join xs) (join ys))

-- The bytes of the file and of the queue behind them.
abbrev pub logged : LogFile → Text
logged lf = get_or_empty (find lf.filename lf.files) ++ join lf.datach

-- A message is written, without a level or with one, or the timer flushes; the file opens, and every write succeeds.
pub data Event : Type 0 where
  wrote : Clock → Answers → Text → Event
  levelled : Clock → Answers → Bool → ℕ → Text → Event
  flushed : Clock → Event

unfoldable pub step : Event → LogFile → Option (Bool × LogFile)
unfolding write flush2 write_level_msg
step (wrote now a msg) lf = write now a msg lf
step (levelled now a sampled level msg) lf = write_level_msg now a sampled level msg lf
step (flushed now) lf = flush2 now true true [] lf

-- The line of a message, if the queue has room.
abbrev pub taken : Clock → Text → LogFile → Text
taken now msg lf = if ltb (length lf.datach) cap_datach then line_of now lf msg else []

-- The line that the queue takes; none of a message below the level of the file, or that the
-- probability leaves out.
abbrev pub accepted : Event → LogFile → Text
accepted (wrote now a msg) lf = taken now msg lf
accepted (levelled now a sampled level msg) lf =
    if not sampled then [] else if ltb level lf.level then [] else taken now (titled level msg) lf
accepted (flushed now) lf = []

unfoldable pub run : List Event → LogFile → Option (Text × LogFile)
unfolding step
run [] lf = some ([], lf)
run (e ∷ es) lf = elim (step e lf) [
  | none ↦ none
  | some (ok, lf') ↦ elim (run es lf') [
    | none ↦ none
    | some (rest, last) ↦ some (accepted e lf ++ rest, last)
  ]
]

-- One file, through the cache.
pub record IsQueued (lf : LogFile) : Type 0 where
  pub cached : lf.use_cache ≡ true
  pub one_file : lf.rotate ≡ LogRotate.rotate_none
  pub bounded : length lf.datach ≤ cap_datach

abbrev pub IsNext : LogFile → Text → LogFile → Type 0
IsNext lf new lf' = IsQueued lf' × (lf'.filename ≡ lf.filename) × (logged lf' ≡ logged lf ++ new)

queue-cases : (q : List Text) → (q ≡ []) ⊎ (msg : Text) × (more : List Text) × (q ≡ msg ∷ more)
queue-cases [] = inl refl
queue-cases (msg ∷ more) = inr (msg, more, refl)

pub flush_loop-IsNext :
    (n : ℕ) (lf : LogFile) → IsQueued lf → IsNext lf [] (flush_loop n lf.filename [] lf).1
unfolding flush_loop
flush_loop-IsNext zero lf h = (h, refl, sym (append-nil _))
flush_loop-IsNext (suc n) lf h = elim (queue-cases lf.datach) [
  | inl e ↦
      rw (e, flush_loop)
        (h, refl, rw e (sym (append-nil (get_or_empty (find lf.filename lf.files) ++ []))))
  | inr (msg, more, e) ↦
      let lf' = append_file lf.filename msg (record lf { datach = more }) in
      let shorter : length more ≤ cap_datach = omega (arith, h.bounded, ap length e) in
      let (queued, name, same) =
        flush_loop-IsNext n lf'
          (record { cached = h.cached; one_file = h.one_file; bounded = shorter }) in
      let old = get_or_empty (find lf.filename lf.files) in
      let moved : logged lf' ≡ old ++ (msg ++ join more) =
        rw (find-put_same lf.filename (old ++ msg) lf.files) (append_assoc old msg (join more)) in
      rw (e, flush_loop) (queued, name, same ∙ ap (λ t. t ++ []) moved)
]

write-IsNext :
    (now : Clock) (a : Answers) (msg : Text) (lf : LogFile)
    → IsQueued lf
    → (ok : Bool) × (lf' : LogFile) × (write now a msg lf ≡ some (ok, lf'))
      × IsNext lf (taken now msg lf) lf'
unfolding write append_cache2
write-IsNext now a msg lf h =
    let line = line_of now lf msg in
    elim (Bool-cases (ltb (length lf.datach) cap_datach)) [
      | inr full ↦
          (true, lf, rw h.cached (rw full refl), (h, refl, rw full (sym (append-nil (logged lf)))))
      | inl room ↦
          let lf' = record lf { datach = lf.datach ++ (line ∷ []) } in
          let longer : length lf'.datach ≤ cap_datach =
            ground (arith, length-append lf.datach (line ∷ [])) in
          let old = get_or_empty (find lf.filename lf.files) in
          let grown : logged lf' ≡ logged lf ++ line =
            ap (◌++◌ old)
              (join-append lf.datach (line ∷ []) ∙ ap (◌++◌ (join lf.datach)) (append-nil line))
            ∙ sym (append_assoc old (join lf.datach) line) in
          (
            true,
            lf',
            rw h.cached (rw room refl),
            (
              record { cached = h.cached; one_file = h.one_file; bounded = longer },
              refl,
              rw room grown,
            ),
          )
    ]

abbrev pub flushing : LogFile → LogFile
flushing lf = record lf { status = SyncStatus.doing }

pub flushing-IsQueued : (lf : LogFile) → IsQueued lf → IsQueued (flushing lf)
flushing-IsQueued lf h = record { cached = h.cached; one_file = h.one_file; bounded = h.bounded }

pub log_filename_eq :
    (now : Clock) (lf : LogFile)
    → lf.rotate ≡ LogRotate.rotate_none
    → log_filename now lf ≡ lf.filename
unfolding text_beq
log_filename_eq now lf one_file = rw one_file refl

pub flush2_eq :
    (now : Clock) (lf : LogFile)
    → lf.rotate ≡ LogRotate.rotate_none
    → flush2 now true true [] lf ≡ (
        let r = flush_loop batch lf.filename [] (flushing lf) in
        some (r.0, record r.1 { status = SyncStatus.done }))
unfolding flush2
flush2_eq now lf one_file =
    ap
      (λ n.
        let q = flush_loop batch n [] (flushing lf) in
        some (q.0, record q.1 { status = SyncStatus.done }))
      (log_filename_eq now lf one_file)

kept : (lf : LogFile) → IsQueued lf → IsNext lf [] lf
kept lf h = (h, refl, sym (append-nil (logged lf)))

step-IsNext :
    (e : Event) (lf : LogFile)
    → IsQueued lf
    → (ok : Bool) × (lf' : LogFile) × (step e lf ≡ some (ok, lf')) × IsNext lf (accepted e lf) lf'
unfolding step write_level_msg
step-IsNext (wrote now a msg) lf h = write-IsNext now a msg lf h
step-IsNext (levelled now a false level msg) lf h = (true, lf, refl, kept lf h)
step-IsNext (levelled now a true level msg) lf h = elim (Bool-cases (ltb level lf.level)) [
  | inl low ↦ (true, lf, rw low refl, rw low (kept lf h))
  | inr high ↦
      let (ok, lf', e, next) = write-IsNext now a (titled level msg) lf h in
      (ok, lf', rw high e, rw high next)
]
step-IsNext (flushed now) lf h =
    let (queued, same_name, same) =
      flush_loop-IsNext batch (flushing lf) (flushing-IsQueued lf h) in
    let r = flush_loop batch lf.filename [] (flushing lf) in
    (
      r.0,
      record r.1 { status = SyncStatus.done },
      flush2_eq now lf h.one_file,
      (
        record { cached = queued.cached; one_file = queued.one_file; bounded = queued.bounded },
        same_name,
        same,
      ),
    )

-- A log file that is not rotated and uses its queue, when every file opens and every write to it
-- succeeds: whatever is written and flushed, nothing panics, the queue stays within its capacity, and
-- the bytes of the file, and of the queue behind them, are those from before and then the lines that
-- came when the queue was not full, whole and in order.
pub run-keeps_order :
    (events : List Event) (lf : LogFile)
    → IsQueued lf
    → (new : Text) × (lf' : LogFile) × (run events lf ≡ some (new, lf')) × IsNext lf new lf'
unfolding run
run-keeps_order [] lf h = ([], lf, refl, (h, refl, sym (append-nil (logged lf))))
run-keeps_order (e ∷ es) lf h =
    let (ok, lf1, f, (h1, name1, grown1)) = step-IsNext e lf h in
    let (rest, lf2, g, (h2, name2, grown2)) = run-keeps_order es lf1 h1 in
    (
      accepted e lf ++ rest,
      lf2,
      rw (f, run) (rw (g, run) refl),
      (
        h2,
        name2 ∙ name1,
        grown2 ∙ ap (λ t. t ++ rest) grown1 ∙ append_assoc (logged lf) (accepted e lf) rest,
      ),
    )
