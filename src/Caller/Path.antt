-- ===== src/Caller/Path.antt =====
-- A response pops what its request pushed.
use nbagent.Base.{◌≡◌, refl, ap, some, List, [], ◌∷◌, Text}
use nbagent.Caller.{push_stack, get_top_stack, drop_last, pop_stack}

top-push : (value : Text) (stack : List Text) → get_top_stack (push_stack value stack) ≡ some value
unfolding get_top_stack push_stack
top-push value [] = refl
top-push value (v ∷ []) = refl
top-push value (v ∷ w ∷ stack) = top-push value (w ∷ stack)

drop_last-push : (value : Text) (stack : List Text) → drop_last (push_stack value stack) ≡ stack
unfolding drop_last push_stack
drop_last-push value [] = refl
drop_last-push value (v ∷ []) = refl
drop_last-push value (v ∷ w ∷ stack) = ap (◌∷◌ v) (drop_last-push value (w ∷ stack))

-- Popping gives the caller pushed last and the stack from before, whatever it was; the top that is
-- read without popping is the same caller.
pub pop_stack-push :
    (value : Text) (stack : List Text)
    → (pop_stack (push_stack value stack) ≡ (some value, stack))
      × (get_top_stack (push_stack value stack) ≡ some value)
unfolding pop_stack
pop_stack-push value stack =
    (rw (top-push value stack, drop_last-push value stack), top-push value stack)
