-- ===== src/Log/Logger/Sessions.antt =====
-- log/sessionlog.go: the fields that a session gathers until they are written at once.
use mathlib.Core.List.{append_assoc, append-nil}
use nbagent.Base.{
  inl, inr, true, false, nat_beq_iff, Bool-cases, ℕ, suc, ◌≡◌, ◌<◌, refl, sym, ap, ◌∙◌, Option,
  none, some, List, [], ◌∷◌, ◌++◌, Text, update, nat_beq, nat_eq, for_each, if◌then◌else◌, arith,
}

-- A `*logVal` is a number; `written` are the entries that were logged, with their fields. `Field`
-- is the logging library's.
pub record Sessions {ℓ} (Field : Type ℓ) : Type ℓ where
  pub vals : ℕ → List Field
  pub next : ℕ
  pub written : List (Text × List Field)

-- What happens to sessions: the context with which a function of the session log is called, and
-- the fields.
pub data Event {ℓ} (Field : Type ℓ) : Type ℓ where
  started appended : Option ℕ → List Field → Event Field
  flushed : Option ℕ → Text → List Field → Event Field

module _ {ℓ} {Field : Type ℓ} where
  abbrev pub extend : ℕ → List Field → Sessions Field → Sessions Field
  extend p fields s = record s { vals = update s.vals p (s.vals p ++ fields) }

  -- A context is the session that it carries, if it carries one.
  unfoldable pub log_start : Option ℕ → List Field → Sessions Field → Option ℕ × Sessions Field
  log_start none fields s =
      (some s.next, record s { vals = update s.vals s.next fields; next = suc s.next })
  log_start (some p) fields s = (some p, extend p fields s)

  unfoldable pub log_append : Option ℕ → List Field → Sessions Field → Sessions Field
  log_append none fields s = s
  log_append (some p) fields s = extend p fields s

  -- The fields stay where they are.
  unfoldable pub log_flush : Option ℕ → Text → List Field → Sessions Field → Sessions Field
  log_flush none key fields s = record s { written = s.written ++ ((key, fields) ∷ []) }
  log_flush (some p) key fields s =
      let s' = extend p fields s in record s' { written = s'.written ++ ((key, s'.vals p) ∷ []) }

  unfoldable pub step : Event Field → Sessions Field → Sessions Field
  unfolding log_start log_append log_flush
  step (started context fields) s = (log_start context fields s).1
  step (appended context fields) s = log_append context fields s
  step (flushed context key fields) s = log_flush context key fields s

  abbrev of_session : ℕ → Option ℕ → List Field → List Field
  of_session p none fields = []
  of_session p (some q) fields = if nat_beq q p then fields else []

  abbrev of_event : ℕ → Event Field → List Field
  of_event p (started context fields) = of_session p context fields
  of_event p (appended context fields) = of_session p context fields
  of_event p (flushed context key fields) = of_session p context fields

  -- The fields that are given to the session, in order.
  abbrev given : ℕ → List (Event Field) → List Field
  given p [] = []
  given p (e ∷ es) = of_event p e ++ given p es

  vals-extend :
      (p q : ℕ) (fields : List Field) (s : Sessions Field)
      → (extend q fields s).vals p ≡ s.vals p ++ of_session p (some q) fields
  vals-extend p q fields s = elim (Bool-cases (nat_beq q p)) [
    | inl e ↦ rw (e, (nat_beq_iff q p).0 e) refl
    | inr e ↦ rw e (sym (append-nil (s.vals p)))
  ]

  -- A session that was started is not started anew.
  vals-step :
      (p : ℕ) (e : Event Field) (s : Sessions Field)
      → p < s.next
      → ((step e s).vals p ≡ s.vals p ++ of_event p e) × (p < (step e s).next)
  unfolding step log_start log_append log_flush
  vals-step p (started none fields) s l =
      let other : nat_beq s.next p ≡ false = ground (arith, l) in
      (rw other (sym (append-nil (s.vals p))), omega (arith, l))
  vals-step p (started (some q) fields) s l = (vals-extend p q fields s, l)
  vals-step p (appended none fields) s l = (sym (append-nil (s.vals p)), l)
  vals-step p (appended (some q) fields) s l = (vals-extend p q fields s, l)
  vals-step p (flushed none key fields) s l = (sym (append-nil (s.vals p)), l)
  vals-step p (flushed (some q) key fields) s l = (vals-extend p q fields s, l)

  vals-given :
      (p : ℕ) (events : List (Event Field)) (s : Sessions Field)
      → p < s.next
      → (for_each step events s).vals p ≡ s.vals p ++ given p events
  vals-given p [] s l = sym (append-nil (s.vals p))
  vals-given p (e ∷ es) s l =
      let (now, live) = vals-step p e s l in
      vals-given p es (step e s) live
      ∙ ap (λ fields. fields ++ given p es) now
      ∙ append_assoc (s.vals p) (of_event p e) (given p es)

  -- However sessions are interleaved, a session that was started holds the fields that it was given,
  -- in order, those that were written before too, and a flush writes them and then its own.
  flush_writes_given :
      (p : ℕ) (events : List (Event Field)) (key : Text) (fields : List Field) (s : Sessions Field)
      → p < s.next
      → (step (flushed (some p) key fields) (for_each step events s)).written
        ≡ (for_each step events s).written ++ ((key, s.vals p ++ (given p events ++ fields)) ∷ [])
  unfolding step log_flush
  flush_writes_given p events key fields s l =
      let last = for_each step events s in
      let same : nat_beq p p ≡ true = ground arith in
      let held =
        ap (λ fs. fs ++ fields) (vals-given p events s l)
        ∙ append_assoc (s.vals p) (given p events) fields in
      rw same (ap (λ fs. last.written ++ ((key, fs) ∷ [])) held)
