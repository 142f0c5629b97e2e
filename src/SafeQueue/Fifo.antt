-- ===== src/SafeQueue/Fifo.antt =====
-- SafeQueue.h against a specification that knows no queue: the elements come out in the order in which
-- they went in, each once, whoever takes them and however.
use mathlib.Core.List.{append_assoc, append-nil}
use hawk_txn.Common.{
  ◌≡◌, refl, Bool, true, false, Option, none, some, List, [], ◌∷◌, ◌++◌, ap, sym, ◌∙◌,
}
use hawk_txn.SafeQueue.{Popped, value, terminated, waits, push, pop, try_pop, drain_into, drain}

pub data Call {ℓ} (T : Type ℓ) : Type ℓ where
  pushes : T → Call T
  pops : Bool → Call T
  tries : Call T
  drains : Call T

module _ {ℓ} {T : Type ℓ} where
  -- What a call of `pop` takes, and what it leaves.
  abbrev pub taken : List T → Popped T → List T × List T
  taken queue (value x rest) = (x ∷ [], rest)
  taken queue terminated = ([], queue)
  taken queue waits = ([], queue)

  abbrev pub taken_if : Option T × List T → List T × List T
  taken_if (none, queue) = ([], queue)
  taken_if (some x, queue) = (x ∷ [], queue)

  -- The elements that a call takes, and the queue after it.
  unfoldable pub step : Call T → List T → List T × List T
  unfolding push pop try_pop drain
  step (pushes x) queue = ([], push x queue)
  step (pops running) queue = taken queue (pop running queue)
  step tries queue = taken_if (try_pop queue)
  step drains queue = drain queue

  -- The elements that a run takes, in order, and the queue after it.
  unfoldable pub run : List (Call T) → List T → List T × List T
  unfolding step
  run [] queue = ([], queue)
  run (c ∷ cs) queue =
      let (out, queue') = step c queue in
      let (outs, queue'') = run cs queue' in (out ++ outs, queue'')

  abbrev pub pushed : List (Call T) → List T
  pushed [] = []
  pushed (pushes x ∷ cs) = x ∷ pushed cs
  pushed (pops running ∷ cs) = pushed cs
  pushed (tries ∷ cs) = pushed cs
  pushed (drains ∷ cs) = pushed cs

  drain_into_lem : (elements queue : List T) → drain_into elements queue ≡ elements ++ queue
  unfolding drain_into
  drain_into_lem elements [] = sym (append-nil elements)
  drain_into_lem elements (x ∷ queue) =
      drain_into_lem (elements ++ x ∷ []) queue ∙ append_assoc elements (x ∷ []) queue

  abbrev joined : List T × List T → List T
  joined (out, queue) = out ++ queue

  step_lem : (c : Call T) (queue : List T) → joined (step c queue) ≡ queue ++ pushed (c ∷ [])
  unfolding step push pop try_pop drain
  step_lem (pushes x) queue = refl
  step_lem (pops true) [] = refl
  step_lem (pops false) [] = refl
  step_lem (pops running) (x ∷ queue) = sym (append-nil (x ∷ queue))
  step_lem tries [] = refl
  step_lem tries (x ∷ queue) = sym (append-nil (x ∷ queue))
  step_lem drains queue =
      append-nil (drain_into [] queue) ∙ drain_into_lem [] queue ∙ sym (append-nil queue)

  pushed-cons : (c : Call T) (cs : List (Call T)) → pushed (c ∷ []) ++ pushed cs ≡ pushed (c ∷ cs)
  pushed-cons (pushes x) cs = refl
  pushed-cons (pops running) cs = refl
  pushed-cons tries cs = refl
  pushed-cons drains cs = refl

  -- In any run, what has been taken, in order, followed by what is left in the queue is what was there
  -- at the start followed by what has been pushed, in order.
  pub fifo :
      (cs : List (Call T)) (queue : List T)
      → (run cs queue).0 ++ (run cs queue).1 ≡ queue ++ pushed cs
  unfolding run
  fifo [] queue = sym (append-nil queue)
  fifo (c ∷ cs) queue =
      let (out, queue') = step c queue in
      append_assoc out (run cs queue').0 (run cs queue').1
      ∙ ap (λ x. out ++ x) (fifo cs queue')
      ∙ sym (append_assoc out queue' (pushed cs))
      ∙ ap (λ x. x ++ pushed cs) (step_lem c queue)
      ∙ append_assoc queue (pushed (c ∷ [])) (pushed cs)
      ∙ ap (λ x. queue ++ x) (pushed-cons c cs)
