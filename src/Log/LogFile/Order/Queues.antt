-- ===== src/Log/LogFile/Order/Queues.antt =====
-- The two queues write the same.
use mathlib.Core.List.{append-nil}
use nbagent.Base.{
  ℕ, zero, suc, ◌≤◌, ◌≡◌, refl, sym, ap, ◌∙◌, inl, inr, true, some, [], ◌∷◌, ◌++◌, arith, Text,
  find, find-put_same, text_eq, length, get_or_empty,
}
use nbagent.Log.LogFile.{
  LogFile, LogRotate, SyncStatus, Clock, append_file, flush_loop, flush2, batch,
}
use nbagent.Log.LogFile.OldQueue.{join, flush}
use nbagent.Log.LogFile.Order.{
  IsQueued, logged, queue-cases, flush_loop-IsNext, flushing, flushing-IsQueued, log_filename_eq,
  flush2_eq,
}

abbrev pub contents : LogFile → Text
contents lf = get_or_empty (find lf.filename lf.files)

-- A loop that may write as many messages as there are empties the queue.
flush_loop-empties :
    (n : ℕ) (name : Text) (lf : LogFile)
    → length lf.datach ≤ n
    → ((flush_loop n name [] lf).0 ≡ true) × ((flush_loop n name [] lf).1.datach ≡ [])
unfolding flush_loop
flush_loop-empties zero name lf l = elim (queue-cases lf.datach) [
  | inl e ↦ (refl, e)
  | inr (msg, more, e) ↦ absurd (omega (arith, l, ap length e))
]
flush_loop-empties (suc n) name lf l = elim (queue-cases lf.datach) [
  | inl e ↦ rw (e, flush_loop) (refl, e)
  | inr (msg, more, e) ↦
      let fits : length more ≤ n = omega (arith, l, ap length e) in
      rw (e, flush_loop)
        (flush_loop-empties n name (append_file name msg (record lf { datach = more })) fits)
]

flush-next :
    (now : Clock) (lf : LogFile)
    → lf.rotate ≡ LogRotate.rotate_none
    → (lf' : LogFile) × (flush now true true true true lf ≡ some (true, lf'))
      × (lf'.cache_data ≡ [])
      × (contents lf' ≡ contents lf ++ join lf.cache_data)
unfolding flush
flush-next now lf one_file =
    let taken = record lf { status = SyncStatus.done; cache_data = [] } in
    elim (queue-cases lf.cache_data) [
      | inl e ↦ (taken, rw e refl, refl, rw e (sym (append-nil (contents lf))))
      | inr (msg, more, e) ↦ (
        append_file lf.filename (join (msg ∷ more)) taken,
        rw (e, log_filename_eq now lf one_file) refl,
        refl,
        rw (e, find-put_same lf.filename (contents lf ++ join (msg ∷ more)) lf.files) refl,
      )
    ]

-- A log file that is not rotated and whose two queues hold the same messages, at most 10000, when
-- the file opens and every write to it succeeds: `flush2` of the one queue and `flush` of the other
-- both succeed, leave their queue empty, and leave the same bytes in the file.
flush2-flush :
    (now : Clock) (lf : LogFile)
    → IsQueued lf
    → length lf.datach ≤ batch
    → lf.cache_data ≡ lf.datach
    → (by_channel : LogFile) × (at_once : LogFile) × (flush2 now true true [] lf
        ≡ some (true, by_channel))
      × (flush now true true true true lf ≡ some (true, at_once))
      × (by_channel.datach ≡ [])
      × (at_once.cache_data ≡ [])
      × (contents by_channel ≡ contents at_once)
flush2-flush now lf h l same =
    let r = flush_loop batch lf.filename [] (flushing lf) in
    let (ok, empty) = flush_loop-empties batch lf.filename (flushing lf) l in
    let (queued, name, moved) = flush_loop-IsNext batch (flushing lf) (flushing-IsQueued lf h) in
    let (at_once, e, gone, written) = flush-next now lf h.one_file in
    (
      record r.1 { status = SyncStatus.done },
      at_once,
      flush2_eq now lf h.one_file ∙ ap (λ b. some (b, record r.1 { status = SyncStatus.done })) ok,
      e,
      empty,
      gone,
      sym (append-nil (contents r.1))
          ∙ sym (ap (λ q. contents r.1 ++ join q) empty)
          ∙ moved
          ∙ append-nil (logged lf)
          ∙ sym (written ∙ ap (λ q. contents lf ++ join q) same),
    )
