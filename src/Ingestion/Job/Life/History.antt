-- ===== src/Ingestion/Job/Life/History.antt =====
-- What every sequence of transitions leaves alone in an `IngestionJob`.
use fifa_world_cup_ai_agent.Prelude.{
  String, ◌≡◌, refl, inl, inr, Result-cases, ap, ◌∙◌, sym, List, [], ◌∷◌, ◌++◌, append-nil,
  append_assoc, Begins, ok, arith,
}
use fifa_world_cup_ai_agent.Ingestion.Job.{Job, Checkpoint}
use fifa_world_cup_ai_agent.Ingestion.Job.Life.{Op, checkpoint, apply, perform}

module _ {Time : Type 0} (isoformat : Time → String) where
  -- What an accepted transition leaves alone: who asked for the job and what it is, and every
  -- checkpoint that it already has.
  abbrev pub Keeps : Job Time → Job Time → Type 0
  Keeps j k =
      (k.id ≡ j.id)
      × (k.job_type ≡ j.job_type)
      × (k.source_label ≡ j.source_label)
      × (k.requested_by_user_id ≡ j.requested_by_user_id)
      × (k.created_at ≡ j.created_at)
      × Begins j.stage_checkpoints k.stage_checkpoints

  Keeps-refl : (j : Job Time) → Keeps j j
  Keeps-refl j = (refl, refl, refl, refl, refl, ([], sym (append-nil j.stage_checkpoints)))

  Keeps-trans : (j k l : Job Time) → Keeps j k → Keeps k l → Keeps j l
  Keeps-trans j k l (a, b, c, d, e, (r, p)) (a', b', c', d', e', (s, q)) = (
    a' ∙ a,
    b' ∙ b,
    c' ∙ c,
    d' ∙ d,
    e' ∙ e,
    (r ++ s, q ∙ ap (λ t. t ++ s) p ∙ append_assoc j.stage_checkpoints r s),
  )

  -- The checkpoints that an operation adds.
  added : Op Time → List Checkpoint
  added (checkpoint stage now) = record { stage = stage; completed_at = isoformat now } ∷ []
  added _ = []

  apply-Keeps : (op : Op Time) (j k : Job Time) → apply isoformat op j ≡ ok k → Keeps j k
  unfolding apply added
  apply-Keeps (checkpoint stage now) j k h = (
    ground arith,
    ground arith,
    ground arith,
    ground arith,
    ground arith,
    (added (checkpoint stage now), ground arith),
  )
  apply-Keeps op j k h = (
    ground arith,
    ground arith,
    ground arith,
    ground arith,
    ground arith,
    ([], ground (arith, append-nil j.stage_checkpoints)),
  )

  -- Every sequence of transitions that a job accepts keeps its id, type, label, requester and creation
  -- time, and begins its checkpoints by those that it had.
  pub perform-Keeps :
      (ops : List (Op Time)) (j k : Job Time) → perform isoformat ops j ≡ ok k → Keeps j k
  unfolding perform
  perform-Keeps [] j k h = let e : j ≡ k = ground arith in rw (← e) (Keeps-refl j)
  perform-Keeps (op ∷ ops) j k h = elim (Result-cases (apply isoformat op j)) [
    | inl (m, e) ↦ Keeps-trans j m k (apply-Keeps op j m e) (perform-Keeps ops m k (rw e at h))
    | inr (x, e) ↦ absurd (ground arith)
  ]
