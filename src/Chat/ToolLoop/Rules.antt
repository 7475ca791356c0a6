-- ===== src/Chat/ToolLoop/Rules.antt =====
-- Postconditions of parts of the generator: one predicate for a return, one for an exception.
use fifa_world_cup_ai_agent.Prelude.{Result, ok, err}
use fifa_world_cup_ai_agent.Chat.Completion.{Raised}
use fifa_world_cup_ai_agent.Chat.ToolLoop.Loop.{Turn, Gen, continue, ◌>>=◌}

module _ {A : Type 0} where
  abbrev pub Ensures : (A → Turn → Type 0) → (Turn → Type 0) → Result Raised A × Turn → Type 0
  Ensures Q E (ok a, t) = Q a t
  Ensures Q E (err e, t) = E t

  pub Ensures-weaken :
      {Q Q' : A → Turn → Type 0} {E E' : Turn → Type 0} (r : Result Raised A × Turn)
      → ((a : A) (t : Turn) → Q a t → Q' a t)
      → ((t : Turn) → E t → E' t)
      → Ensures Q E r
      → Ensures Q' E' r
  Ensures-weaken (ok a, t) q e h = q a t h
  Ensures-weaken (err x, t) q e h = e t h

module _ {A B : Type 0} (Q : A → Turn → Type 0) (R : B → Turn → Type 0) (E : Turn → Type 0) where
  continue-Ensures :
      (r : Result Raised A × Turn) (f : A → Gen B)
      → Ensures Q E r
      → ((a : A) (t : Turn) → Q a t → Ensures R E (f a t))
      → Ensures R E (continue f r)
  continue-Ensures (ok a, t) f h k = k a t h
  continue-Ensures (err e, t) f h k = h

  -- A bind keeps its promise if the rest does from every return of the first part.
  pub Ensures-bind :
      (m : Gen A) (f : A → Gen B) (t : Turn)
      → Ensures Q E (m t)
      → ((a : A) (u : Turn) → Q a u → Ensures R E (f a u))
      → Ensures R E ((m >>= f) t)
  Ensures-bind m f t h k = continue-Ensures (m t) f h k
