-- ===== src/Network/Contexts/Invariant.antt =====
-- No channel of a waiting call is closed twice.
use nbagent.Base.{
  ℕ, ◌<◌, ◌≡◌, ◌≢◌, refl, true, false, some, [], ◌∷◌, arith, Text, Dict, find, remove, ◌==◌, nat_eq,
  text_eq, for_each, put-Unique, remove-Unique, remove_head, find_head, find_tail, find-nil,
  find_later, ap, ◌∙◌, subst, Unique, find-put, find-remove, text_beq_iff, Bool-cases, Option-cases,
  inl, inr,
}
use nbagent.Network.Contexts.{
  RpcContext, Connection, close_msg, clean_one, clean_all_rpc_context, get_rpc_context,
  remove_rpc_context, add_rpc_context,
}

-- A waiting call has a context of its own, whose channel is open, and no channel was closed twice.
pub record IsOpen (c : Connection) : Type 0 where
  pub waiting :
      (id : Text) (p : ℕ)
      → find id c.request_context ≡ some p
      → ((c.rpc_context p).closed ≡ false) × (p < c.next)
  pub distinct :
      (id j : Text) (p : ℕ)
      → find id c.request_context ≡ some p
      → find j c.request_context ≡ some p
      → id ≡ j
  pub unique : Unique c.request_context
  pub once : c.double_close ≡ false

pub add_rpc_context-IsOpen :
    (id : Text) (c : Connection) → IsOpen c → IsOpen (add_rpc_context id c).1
unfolding add_rpc_context
add_rpc_context-IsOpen id c h = record {
  waiting = λ j p e. ground (arith, find-put j id c.next c.request_context, h.waiting j p);
  distinct = λ i j p e f. ground (
    arith,
    find-put j id c.next c.request_context,
    find-put i id c.next c.request_context,
    h.waiting i p,
    h.waiting j p,
    h.distinct i j p,
    text_beq_iff id i,
    text_beq_iff id j,
  );
  unique = put-Unique id c.next c.request_context h.unique;
  once = h.once;
}

pub get_rpc_context-IsOpen :
    (id : Text) (c : Connection) → IsOpen c → IsOpen (get_rpc_context id c).1
unfolding get_rpc_context
get_rpc_context-IsOpen id c h = record {
  waiting = λ j p e. ground (arith, find-remove j id c.request_context, h.waiting j p);
  distinct = λ i j p e f. ground (
    arith,
    find-remove j id c.request_context,
    find-remove i id c.request_context,
    h.distinct i j p,
  );
  unique = remove-Unique id c.request_context h.unique;
  once = h.once;
}

pub remove_rpc_context-IsOpen :
    (id : Text) (c : Connection) → IsOpen c → IsOpen (remove_rpc_context id c)
unfolding remove_rpc_context close_msg
remove_rpc_context-IsOpen id c h = elim (Option-cases (find id c.request_context)) [
  | inl e ↦ rw (e, remove_rpc_context) h
  | inr (p, e) ↦
      rw (e, remove_rpc_context)
        (record {
          waiting = λ j q f. ground (
            arith,
            find-remove j id c.request_context,
            h.waiting j q,
            h.waiting id p e,
            h.distinct id j q,
            text_beq_iff id j,
          );
          distinct = λ i j q f g. ground (
            arith,
            find-remove j id c.request_context,
            find-remove i id c.request_context,
            h.distinct i j q,
          );
          unique = remove-Unique id c.request_context h.unique;
          once = ground (arith, h.waiting id p e);
        })
]

-- Closing the channel of one waiting call.
clean_one-IsOpen :
    (reason id : Text) (p : ℕ) (c : Connection)
    → find id c.request_context ≡ some p
    → IsOpen c
    → IsOpen (clean_one reason (id, p) c)
unfolding clean_one
clean_one-IsOpen reason id p c e h = record {
  waiting = λ j q f. ground (
    arith,
    find-remove j id c.request_context,
    h.waiting j q,
    h.waiting id p e,
    h.distinct id j q,
    text_beq_iff id j,
  );
  distinct = λ i j q f g. ground (
    arith,
    find-remove j id c.request_context,
    find-remove i id c.request_context,
    h.distinct i j q,
  );
  unique = remove-Unique id c.request_context h.unique;
  once = ground (arith, h.waiting id p e);
}

request_context-clean_one :
    (reason id : Text) (p : ℕ) (c : Connection)
    → (clean_one reason (id, p) c).request_context ≡ remove id c.request_context
unfolding clean_one
request_context-clean_one reason id p c = refl

rpc_context-clean_one_ne :
    (reason id : Text) (p q : ℕ) (c : Connection)
    → p ≢ q
    → (clean_one reason (id, p) c).rpc_context q ≡ c.rpc_context q
unfolding clean_one
rpc_context-clean_one_ne reason id p q c h = ground arith

rpc_context-clean_one_self :
    (reason id : Text) (p : ℕ) (c : Connection)
    → (clean_one reason (id, p) c).rpc_context p
      ≡ record { error_msg = reason; cancelled = true; closed = true }
unfolding clean_one
rpc_context-clean_one_self reason id p c = ground arith

-- The loop of `cleanAllRpcContext` from any entry on: the entries left are those of the map.
clean_loop :
    (reason : Text) (m : Dict Text ℕ) (c : Connection)
    → c.request_context ≡ m
    → IsOpen c
    → IsOpen (for_each (clean_one reason) m c)
      × ((for_each (clean_one reason) m c).request_context ≡ [])
clean_loop reason [] c e h = (h, e)
clean_loop reason ((id, p) ∷ m) c e h =
    let u = subst Unique e h.unique in
    let found : find id c.request_context ≡ some p = rw e (find_head id p m) in
    clean_loop reason m (clean_one reason (id, p) c)
      (request_context-clean_one reason id p c ∙ rw e (remove_head id p m u.0))
      (clean_one-IsOpen reason id p c found h)

-- Where each waiting call has an open channel of its own, cleaning all of them closes no channel
-- twice and leaves no call waiting.
pub clean_all_rpc_context-IsOpen :
    (reason : Text) (c : Connection)
    → IsOpen c
    → IsOpen (clean_all_rpc_context reason c)
      × ((clean_all_rpc_context reason c).request_context ≡ [])
unfolding clean_all_rpc_context
clean_all_rpc_context-IsOpen reason c h = clean_loop reason c.request_context c refl h

abbrev pub told : Text → RpcContext
told reason = record { error_msg = reason; cancelled = true; closed = true }

-- The loop leaves alone a context that no entry points to.
loop_keeps :
    (reason : Text) (m : Dict Text ℕ) (c : Connection) (q : ℕ)
    → Unique m
    → ((j : Text) → find j m ≢ some q)
    → (for_each (clean_one reason) m c).rpc_context q ≡ c.rpc_context q
loop_keeps reason [] c q u h = refl
loop_keeps reason ((id, p) ∷ m) c q u h =
    loop_keeps reason m (clean_one reason (id, p) c) q u.1
      (λ j f. h j (ground (arith, find_tail j id p m, text_beq_iff id j)))
    ∙ rpc_context-clean_one_ne reason id p q c (λ e. h id (find_head id p m ∙ ap some e))

loop_tells :
    (reason : Text) (m : Dict Text ℕ) (c : Connection) (id : Text) (q : ℕ)
    → Unique m
    → ((i j : Text) → find i m ≡ some q → find j m ≡ some q → i ≡ j)
    → find id m ≡ some q
    → (for_each (clean_one reason) m c).rpc_context q ≡ told reason
loop_tells reason [] c id q u d e = cc (find-nil {V = ℕ} id)
loop_tells reason ((i, p) ∷ m) c id q u d e =
    let later = λ (j : Text) (f : find j m ≡ some q). find_later j i p q m u.0 f in
    elim (Bool-cases (i == id)) [
      | inl here ↦
          let p-eq-q : p ≡ q = ground (arith, find_tail id i p m) in
          let alone = λ (j : Text) (f : find j m ≡ some q).
            d i j (find_head i p m ∙ ap some p-eq-q) (later j f) in
          loop_keeps reason m (clean_one reason (i, p) c) q u.1 (λ j f. ground (arith, alone j f))
          ∙ rw (← p-eq-q) (rpc_context-clean_one_self reason i p c)
      | inr there ↦
          loop_tells reason m (clean_one reason (i, p) c) id q u.1
            (λ a b f g. d a b (later a f) (later b g)) (ground (arith, find_tail id i p m))
    ]

-- Where each waiting call has an open channel of its own, cleaning tells each of them: its context
-- has the reason, is cancelled, and its channel is closed.
pub clean_all_rpc_context_tells :
    (reason id : Text) (c : Connection) (p : ℕ)
    → IsOpen c
    → find id c.request_context ≡ some p
    → (clean_all_rpc_context reason c).rpc_context p ≡ told reason
unfolding clean_all_rpc_context
clean_all_rpc_context_tells reason id c p h e =
    loop_tells reason c.request_context c id p h.unique (λ i j. h.distinct i j p) e
