-- ===== src/Rpc/Forgets.antt =====
-- What becomes of the id under which a call waits.
use nbagent.Base.{
  subst, ℕ, ◌≡◌, ◌≢◌, refl, ◌∙◌, ◌⊎◌, Bool, true, false, Option, none, some, List, [], arith, Text,
  find, text_eq, text_beq, text_beq_iff, find-put, find-remove, find-remove_same, find-nil,
  Bool-cases, inl, inr, Option-cases,
}
use nbagent.Network.Contexts.{
  Connection, add_rpc_context, get_rpc_context, remove_rpc_context, clean_all_rpc_context,
  close_msg,
}
use nbagent.Network.Contexts.Invariant.{
  IsOpen, add_rpc_context-IsOpen, get_rpc_context-IsOpen, remove_rpc_context-IsOpen,
  clean_all_rpc_context-IsOpen,
}
use nbagent.Network.Writes.{Link, write}
use nbagent.Rpc.{CallContext, Event, message, timed_out, send_call, select_call}

-- What happens on the connection while a call waits under `id`: other calls begin, end and are
-- answered, and the connection is cleaned. The boolean tells whether the call has been answered or
-- cleaned.
pub data Meanwhile (id : Text) (c : Connection) : Bool → Connection → Type 0 where
  nothing : Meanwhile id c false c
  other_call :
      {over : Bool} {c' : Connection} (j : Text)
      → j ≢ id
      → Meanwhile id c over c'
      → Meanwhile id c over (add_rpc_context j c').1
  other_answer :
      {over : Bool} {c' : Connection} (j : Text)
      → j ≢ id
      → Meanwhile id c over c'
      → Meanwhile id c over (get_rpc_context j c').1
  other_timeout :
      {over : Bool} {c' : Connection} (j : Text)
      → j ≢ id
      → Meanwhile id c over c'
      → Meanwhile id c over (remove_rpc_context j c')
  answered :
      {over : Bool} {c' : Connection}
      → Meanwhile id c over c'
      → Meanwhile id c true (get_rpc_context id c').1
  cleaned :
      {over : Bool} {c' : Connection} (reason : Text)
      → Meanwhile id c over c'
      → Meanwhile id c true (clean_all_rpc_context reason c')

-- While it is not over the call waits under its id, without an error; then nothing waits there.
pub record IsAwaited (id : Text) (p : ℕ) (over : Bool) (c : Connection) : Type 0 where
  pub opened : IsOpen c
  pub waits :
      over ≡ false → (find id c.request_context ≡ some p) × ((c.rpc_context p).error_msg ≡ [])
  pub gone : over ≡ true → find id c.request_context ≡ none

pub add-IsAwaited :
    (id : Text) (c : Connection) → IsOpen c → IsAwaited id c.next false (add_rpc_context id c).1
unfolding add_rpc_context
add-IsAwaited id c h = record {
  opened = add_rpc_context-IsOpen id c h;
  waits = λ e. ground (arith, find-put id id c.next c.request_context, text_beq_iff id id);
  gone = λ e. absurd (ground arith);
}

remove_other :
    (id j : Text) (c : Connection)
    → j ≢ id
    → find id (remove_rpc_context j c).request_context ≡ find id c.request_context
unfolding remove_rpc_context close_msg
remove_other id j c ne = elim (Option-cases (find j c.request_context)) [
  | inl e ↦ rw (e, remove_rpc_context) refl
  | inr (q, e) ↦
      rw (e, remove_rpc_context)
        (ground (arith, find-remove id j c.request_context, text_beq_iff j id))
]

error_msg-remove :
    (j : Text) (p : ℕ) (c : Connection)
    → ((remove_rpc_context j c).rpc_context p).error_msg ≡ (c.rpc_context p).error_msg
unfolding remove_rpc_context close_msg
error_msg-remove j p c = elim (Option-cases (find j c.request_context)) [
  | inl e ↦ rw (e, remove_rpc_context) refl
  | inr (q, e) ↦ rw (e, remove_rpc_context) (ground arith)
]

pub Meanwhile-IsAwaited :
    {id : Text} {p : ℕ} {c : Connection} {over : Bool} {c' : Connection}
    → IsAwaited id p false c
    → Meanwhile id c over c'
    → IsAwaited id p over c'
unfolding add_rpc_context get_rpc_context
Meanwhile-IsAwaited h nothing = h
Meanwhile-IsAwaited {id} {p} h (other_call {over} {c'} j ne r) =
    let w = Meanwhile-IsAwaited h r in
    record {
      opened = add_rpc_context-IsOpen j c' w.opened;
      waits = λ e. ground (
        arith,
        find-put id j c'.next c'.request_context,
        text_beq_iff j id,
        w.waits e,
        w.opened.waiting id p,
      );
      gone = λ e.
          ground (arith, find-put id j c'.next c'.request_context, text_beq_iff j id, w.gone e);
    }
Meanwhile-IsAwaited {id} {p} h (other_answer {over} {c'} j ne r) =
    let w = Meanwhile-IsAwaited h r in
    record {
      opened = get_rpc_context-IsOpen j c' w.opened;
      waits =
          λ e. ground (arith, find-remove id j c'.request_context, text_beq_iff j id, w.waits e);
      gone = λ e. ground (arith, find-remove id j c'.request_context, text_beq_iff j id, w.gone e);
    }
Meanwhile-IsAwaited {id} {p} h (other_timeout {over} {c'} j ne r) =
    let w = Meanwhile-IsAwaited h r in
    record {
      opened = remove_rpc_context-IsOpen j c' w.opened;
      waits =
          λ e. (remove_other id j c' ne ∙ (w.waits e).0, error_msg-remove j p c' ∙ (w.waits e).1);
      gone = λ e. remove_other id j c' ne ∙ w.gone e;
    }
Meanwhile-IsAwaited {id} {p} h (answered {over} {c'} r) =
    let w = Meanwhile-IsAwaited h r in
    record {
      opened = get_rpc_context-IsOpen id c' w.opened;
      waits = λ e. absurd (ground arith);
      gone = λ e. ground (arith, find-remove id id c'.request_context, text_beq_iff id id);
    }
Meanwhile-IsAwaited {id} {p} h (cleaned {over} {c'} reason r) =
    let w = Meanwhile-IsAwaited h r in
    let (opened, none_left) = clean_all_rpc_context-IsOpen reason c' w.opened in
    record {
      opened = opened;
      waits = λ e. absurd (ground arith);
      gone = λ e. rw none_left (find-nil id);
    }

pub connection-send_call :
    (call : CallContext) (conn : ℕ) (l : Link)
    → call.server_connection ≡ some conn
    → (send_call true call l).1.connection ≡ (add_rpc_context call.request_id l.connection).1
unfolding send_call write
connection-send_call call conn l e = rw (e, send_call) refl

select-gone {ℓ} :
    {R : Type ℓ} (unmarshal : List ℕ → Option R) (call : CallContext) (p : ℕ) (over : Bool)
    (event : Event) (l : Link)
    → IsAwaited call.request_id p over l.connection
    → (event ≡ timed_out) ⊎ (over ≡ true)
    → find call.request_id (select_call unmarshal call p event l).1.connection.request_context
      ≡ none
unfolding select_call remove_rpc_context close_msg text_beq
select-gone unmarshal call p over (message bytes) l h wakes = elim wakes [
  | inl e ↦ absurd (ground (arith, e))
  | inr e ↦ ground (arith, h.gone e)
]
select-gone unmarshal call p over timed_out l h wakes = elim (Bool-cases over) [
  | inl e ↦ ground (arith, h.gone e)
  | inr e ↦
      let (found, no_error) = h.waits e in
      rw no_error (
        rw (found, remove_rpc_context)
          (find-remove_same call.request_id l.connection.request_context))
]

-- A call on a connection whose waiting calls have open channels of their own, whose request has been
-- written: whatever calls of other ids begin and end on the connection before it wakes, and whether it
-- is answered, cleaned or times out, no call waits under its id when `Start` returns. No other call
-- begins under its id meanwhile. A message wakes it only if it was answered or cleaned.
pub start-forgets {ℓ} :
    {R : Type ℓ} (unmarshal : List ℕ → Option R) (call : CallContext) (conn : ℕ) (l : Link)
    (over : Bool) (c : Connection) (event : Event)
    → call.server_connection ≡ some conn
    → IsOpen l.connection
    → Meanwhile call.request_id (send_call true call l).1.connection over c
    → (event ≡ timed_out) ⊎ (over ≡ true)
    → let done = select_call unmarshal call l.connection.next event (record l { connection = c }) in
      find call.request_id done.1.connection.request_context ≡ none
start-forgets unmarshal call conn l over c event has_conn opened run wakes =
    select-gone unmarshal call _ over event (record l { connection = c })
      (Meanwhile-IsAwaited (add-IsAwaited call.request_id l.connection opened) (
        subst (λ c0. Meanwhile call.request_id c0 over c)
          (connection-send_call call conn l has_conn) run))
      wakes
