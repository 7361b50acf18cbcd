-- ===== src/Controller/Gate.antt =====
-- maroonepods-gate-controller/maroonedpods-gate-controller.go: the informer's handlers and the worker.
pub mod Drained
pub mod Noticed
pub mod Workers
use maroonedpods.Prelude.{
  ℕ, zero, suc, String, ◌==◌, Bool, true, false, Option, none, some, List, [], ◌∷◌, ◌++◌, Error,
  concat, if◌then◌else◌,
}
use maroonedpods.Admission.{PodSchedulingGate, maroonedpods_gate}

pub data EnqueueState : Type 0 where
  immediate forget back_off : EnqueueState

-- what `Get` of the queue does: it gives a key, says that the queue is shut down, or waits
pub data Got (S : Type 0) : Type 0 where
  got_key : String → S → Got S
  quit blocked : Got S

-- client-go's `workqueue.RateLimitingInterface`
pub record Queue : Type 1 where
  pub State : Type 0
  pub get : State → Got State
  pub done : State → String → State
  pub forget_key : State → String → State
  pub add : State → String → State
  pub add_rate_limited : State → String → State
  pub shut_down : State → State

-- the test of `addPod` and `updatePod`: the gate is the only one
unfoldable pub is_only_gate : Option (List PodSchedulingGate) → Bool
is_only_gate (some (g ∷ [])) = g.name == maroonedpods_gate
is_only_gate _ = false

-- the line that is logged
unfoldable pub add_pod : String → Option (List PodSchedulingGate) → Option String
unfolding concat
add_pod name gates =
    if is_only_gate gates then some (concat ("Adding pod with gate " ∷ name ∷ [])) else none

unfoldable pub update_pod : String → Option (List PodSchedulingGate) → Option String
unfolding concat
update_pod name gates =
    if is_only_gate gates then some (concat ("Updating pod with gate " ∷ name ∷ [])) else none

unfoldable pub execute : String → Option Error × EnqueueState
execute key = (none, forget)

-- what `runWorker` ends in: it has left its loop, or it waits for a key
pub data Ended (S : Type 0) : Type 0 where
  left waiting : S → Ended S

module _ (q : Queue) where
  open q use {State}

  unfoldable pub requeue : EnqueueState → State → String → State
  requeue back_off st key = q.add_rate_limited st key
  requeue forget st key = q.forget_key st key
  requeue immediate st key = q.add st key

  -- `Execute` on a key; `Done` is deferred
  unfoldable pub worked : String → State → State
  unfolding requeue execute
  worked key st = q.done (requeue (execute key).1 st key) key

  -- a round of the loop for each unit of fuel
  unfoldable pub run_worker : ℕ → State → Option (Ended State)
  run_worker zero st = none
  run_worker (suc fuel) st = elim (q.get st) [
    | quit ↦ some (Ended.left st)
    | blocked ↦ some (Ended.waiting st)
    | got_key key st1 ↦ run_worker fuel (worked key st1)
  ]

  -- where a worker is in `Execute`: before `Get`, before it deals with what `execute` returned, or before
  -- the `Done` that is deferred
  pub data Worker : Type 0 where
    idle : Worker
    executing deferred : String → Worker

  -- the next call of a worker on the queue; a worker that left its loop is started again by `wait.Until`
  unfoldable pub advance : Worker → State → Worker × State
  unfolding requeue execute
  advance idle st = elim (q.get st) [
    | got_key key st1 ↦ (executing key, st1)
    | quit ↦ (idle, st)
    | blocked ↦ (idle, st)
  ]
  advance (executing key) st = (deferred key, requeue (execute key).1 st key)
  advance (deferred key) st = (idle, q.done st key)

  -- the workers that `Run` started, over one queue
  pub record Pool : Type 0 where
    pub workers : List Worker
    pub state : State

  unfoldable pub idlers : ℕ → List Worker
  idlers zero = []
  idlers (suc n) = idle ∷ idlers n

  -- `Run`: the workers are started
  unfoldable pub run : ℕ → State → Pool
  unfolding idlers
  run threadiness st = record { workers = idlers threadiness; state = st }

  -- A worker makes its next call, a key is added, or `Run` ends and shuts the queue down.
  pub data Step : Pool → Pool → Type 0 where
    moved :
        (pre post : List Worker) (w : Worker) (st : State)
        → Step
            (record { workers = pre ++ w ∷ post; state = st })
            (record { workers = pre ++ (advance w st).0 ∷ post; state = (advance w st).1 })
    added :
        (ws : List Worker) (st : State) (key : String)
        → Step (record { workers = ws; state = st }) (record { workers = ws; state = q.add st key })
    stopped :
        (ws : List Worker) (st : State)
        → Step
            (record { workers = ws; state = st })
            (record { workers = ws; state = q.shut_down st })

  pub data Runs (start : Pool) : Pool → Type 0 where
    started : Runs start start
    next : {p p' : Pool} → Runs start p → Step p p' → Runs start p'
