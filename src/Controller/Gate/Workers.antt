-- ===== src/Controller/Gate/Workers.antt =====
-- The workers that `Run` starts, in any interleaving of their calls on the queue.
use maroonedpods.Prelude.{
  ℕ, zero, suc, ◌+◌, String, ◌==◌, eq_iff, Bool, false, ◌≡◌, refl, ap, sym, ◌∙◌, Bool-cases, ◌&&◌,
  ◌||◌, not, List, [], ◌∷◌, ◌++◌, ◌⊎◌, inl, inr, length, length-append, if◌then◌else◌, arith,
}
use maroonedpods.Controller.Gate.{
  Queue, Got, got_key, quit, blocked, requeue, execute, Worker, idle, executing, deferred, advance,
  Pool, run, idlers, Step, moved, added, stopped, Runs, started, next,
}

-- What is documented of a queue: `Get` gives no key that is being processed, and from then on it is,
-- until `Done`.
pub record IsExclusive (q : Queue) (processing : q.State → String → Bool) : Type 0 where
  pub get_free :
      (st st1 : q.State) (key : String) → q.get st ≡ got_key key st1 → processing st key ≡ false
  pub get_processing :
      (st st1 : q.State) (key k : String)
      → q.get st ≡ got_key key st1
      → processing st1 k ≡ (k == key || processing st k)
  pub done_processing :
      (st : q.State) (key k : String)
      → processing (q.done st key) k ≡ (not (k == key) && processing st k)
  pub forget_processing :
      (st : q.State) (key k : String) → processing (q.forget_key st key) k ≡ processing st k
  pub add_processing :
      (st : q.State) (key k : String) → processing (q.add st key) k ≡ processing st k
  pub shut_down_processing :
      (st : q.State) (k : String) → processing (q.shut_down st) k ≡ processing st k

-- 1 for true
unfoldable pub one_if : Bool → ℕ
one_if b = if b then 1 else 0

module _ (q : Queue) where
  -- whether a worker works on a key
  unfoldable pub works_on : String → Worker q → Bool
  works_on k idle = false
  works_on k (executing key) = k == key
  works_on k (deferred key) = k == key

  -- how many workers work on a key
  unfoldable pub holders : String → List (Worker q) → ℕ
  holders k [] = 0
  holders k (w ∷ ws) = one_if (works_on k w) + holders k ws

  holders-append :
      (k : String) (xs ys : List (Worker q)) → holders k (xs ++ ys) ≡ holders k xs + holders k ys
  unfolding holders
  holders-append k [] ys = omega arith
  holders-append k (x ∷ xs) ys = omega (arith, holders-append k xs ys)

  holders-idlers : (k : String) (n : ℕ) → holders k (idlers q n) ≡ 0
  unfolding holders idlers works_on one_if
  holders-idlers k zero = refl
  holders-idlers k (suc n) = omega (arith, holders-idlers k n)

  length-idlers : (n : ℕ) → length (idlers q n) ≡ n
  unfolding idlers
  length-idlers zero = refl
  length-idlers (suc n) = omega (arith, length-idlers n)

Got-cases :
    {S : Type 0} (g : Got S)
    → ((g ≡ quit) ⊎ (g ≡ blocked)) ⊎ ((key : String) × (st : S) × (g ≡ got_key key st))
Got-cases quit = inl (inl refl)
Got-cases blocked = inl (inr refl)
Got-cases (got_key key st) = inr (key, st, refl)

module _ (q : Queue) (processing : q.State → String → Bool) (laws : IsExclusive q processing) where
  -- what a worker does to the balance of a key, with the other workers' share of it
  advance-balances :
      (w : Worker q) (st : q.State) (k : String) (others : ℕ)
      → one_if (works_on q k w) + others ≡ one_if (processing st k)
      → one_if (works_on q k (advance q w st).0) + others ≡ one_if (processing (advance q w st).1 k)
  unfolding advance works_on one_if requeue execute
  advance-balances idle st k others h = elim (Got-cases (q.get st)) [
    | inl (inl e) ↦ ground (arith, e)
    | inl (inr e) ↦ ground (arith, e)
    | inr (key, st1, e) ↦
        let free : processing st key ≡ false = laws.get_free st st1 key e in
        let then_busy = laws.get_processing st st1 key k e in
        elim (Bool-cases (k == key)) [
          | inl same ↦
              let same_key : processing st k ≡ processing st key =
                ap (processing st) ((eq_iff k key).0 same) in
              ground (arith, e)
          | inr other ↦ ground (arith, e)
        ]
  ]
  advance-balances (executing key) st k others h = ground (arith, laws.forget_processing st key k)
  advance-balances (deferred key) st k others h = ground (arith, laws.done_processing st key k)

  -- each key is processed by exactly one worker if the queue says so, by none otherwise
  abbrev Balanced : Pool q → Type 0
  Balanced p = (k : String) → holders q k p.workers ≡ one_if (processing p.state k)

  Step-Balanced :
      {p p' : Pool q}
      → Step q p p'
      → Balanced p
      → Balanced p' × (length p.workers ≡ length p'.workers)
  unfolding holders
  Step-Balanced (moved pre post w st) b = (
    λ k.
        let before = holders-append q k pre (w ∷ post) in
        let after = holders-append q k pre ((advance q w st).0 ∷ post) in
        let share =
          advance-balances w st k (holders q k pre + holders q k post)
            (omega (arith, b k, before)) in
        omega (arith, after, share),
    omega (arith, length-append pre (w ∷ post), length-append pre ((advance q w st).0 ∷ post)),
  )
  Step-Balanced (added ws st key) b =
      (λ k. b k ∙ ap one_if (sym (laws.add_processing st key k)), refl)
  Step-Balanced (stopped ws st) b =
      (λ k. b k ∙ ap one_if (sym (laws.shut_down_processing st k)), refl)

  Runs-Balanced :
      {start p : Pool q}
      → Balanced start
      → Runs q start p
      → Balanced p × (length start.workers ≡ length p.workers)
  Runs-Balanced b started = (b, refl)
  Runs-Balanced b (next runs step) =
      let (b1, e1) = Runs-Balanced b runs in let (b2, e2) = Step-Balanced step b1 in (b2, e1 ∙ e2)

  -- If the queue is as documented, and nothing of it is being processed when `Run` starts its workers, then
  -- however their calls, the adding of keys and the end of `Run` interleave, there are always that many
  -- workers, and a key that is being processed is held by exactly one of them, each other key by none.
  pub run-Balanced :
      (threadiness : ℕ) (st : q.State)
      → ((k : String) → processing st k ≡ false)
      → (p : Pool q) → Runs q (run q threadiness st) p
      → ((k : String) → holders q k p.workers ≡ one_if (processing p.state k))
        × (length p.workers ≡ threadiness)
  unfolding run one_if
  run-Balanced threadiness st fresh p runs =
      let start : Balanced (run q threadiness st) =
        λ k. holders-idlers q k threadiness ∙ sym (ap one_if (fresh k)) in
      let (b, e) = Runs-Balanced start runs in (b, sym e ∙ length-idlers q threadiness)
