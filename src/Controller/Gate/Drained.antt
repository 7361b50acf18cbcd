-- ===== src/Controller/Gate/Drained.antt =====
-- The worker takes every key that is pending, and then leaves or waits.
use maroonedpods.Prelude.{
  ℕ, zero, suc, ◌<◌, String, ◌≡◌, refl, ◌∙◌, ◌⊎◌, inl, inr, some, List, [], ◌∷◌, length, arith,
}
use maroonedpods.Controller.Gate.{
  Queue, got_key, quit, blocked, Ended, left, waiting, execute, worked, run_worker,
}

-- What is documented of a queue to which nothing is added meanwhile: `pending` are its keys, of which
-- `Get` takes the first, and `Forget` and `Done` of a key that was taken leave them.
pub record IsQueue (q : Queue) (pending : q.State → List String) : Type 0 where
  pub get_pending :
      (st : q.State) (key : String) (keys : List String)
      → pending st ≡ key ∷ keys
      → (st1 : q.State) × (q.get st ≡ got_key key st1) × (pending st1 ≡ keys)
  pub get_empty : (st : q.State) → pending st ≡ [] → (q.get st ≡ quit) ⊎ (q.get st ≡ blocked)
  pub forget_pending : (st : q.State) (key : String) → pending (q.forget_key st key) ≡ pending st
  pub done_pending : (st : q.State) (key : String) → pending (q.done st key) ≡ pending st

-- `Execute` took the keys one after the other, and then the queue gave no more
pub data Drained (q : Queue) : q.State → List String → Ended q.State → Type 0 where
  left_it : {st : q.State} → q.get st ≡ quit → Drained q st [] (left st)
  waits : {st : q.State} → q.get st ≡ blocked → Drained q st [] (waiting st)
  took :
      {st st1 : q.State} {key : String} {keys : List String} {end : Ended q.State}
      → q.get st ≡ got_key key st1
      → Drained q (worked q key st1) keys end
      → Drained q st (key ∷ keys) end

module _ (q : Queue) (pending : q.State → List String) (laws : IsQueue q pending) where
  pending-worked : (key : String) (st : q.State) → pending (worked q key st) ≡ pending st
  unfolding worked execute
  pending-worked key st = laws.done_pending (q.forget_key st key) key ∙ laws.forget_pending st key

  run_worker_below :
      (fuel : ℕ) (st : q.State) (keys : List String)
      → pending st ≡ keys
      → length keys < fuel
      → (end : Ended q.State) × (run_worker q fuel st ≡ some end) × Drained q st keys end
  unfolding run_worker
  run_worker_below zero st keys e h = absurd (omega arith)
  run_worker_below (suc fuel) st [] e h = elim (laws.get_empty st e) [
    | inl g ↦ (left st, rw (run_worker, g) refl, Drained.left_it g)
    | inr g ↦ (waiting st, rw (run_worker, g) refl, Drained.waits g)
  ]
  run_worker_below (suc fuel) st (key ∷ keys) e h =
      let (st1, g, less) = laws.get_pending st key keys e in
      let (end, ran, drained) =
        run_worker_below fuel (worked q key st1) keys (pending-worked key st1 ∙ less)
          (omega arith) in
      (end, rw (run_worker, g) ran, Drained.took g drained)

  -- If the queue is as documented and nothing is added to it meanwhile, the loop of a worker ends: it executes each pending key
  -- exactly once, in order, and then leaves, if the queue is shut down, or waits for the next key. One
  -- round more than there are keys is enough.
  pub run_worker-Drained :
      (st : q.State)
      → (end : Ended q.State) × (run_worker q (suc (length (pending st))) st ≡ some end)
        × Drained q st (pending st) end
  run_worker-Drained st =
      run_worker_below (suc (length (pending st))) st (pending st) refl (omega arith)
