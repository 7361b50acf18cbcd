-- ===== src/Controller/Tests.antt =====
-- A queue that is a list, and one that knows which keys are being processed.
use maroonedpods.Prelude.{
  suc, String, ◌==◌, eq_iff, Bool, false, not, ◌&&◌, any, if◌then◌else◌, arith, Bool-cases, inl, ap,
  ◌≡◌, refl, ◌↔◌, ◌⊎◌, inr, true, some, List, [], ◌∷◌, length,
}
use maroonedpods.Controller.Gate.{
  Queue, Got, got_key, blocked, Ended, run_worker, Worker, idle, executing, advance, Pool, run,
  idlers, Runs,
}
use maroonedpods.Controller.Gate as Gate
use maroonedpods.Controller.Leader.{
  ReadyChan, new_ready_chan, leader_probe, on_started_leading, receive, gating, reported, App, Step,
  Reachable, start, next,
}
use maroonedpods.Controller.Leader.Reported.{leader_probe_iff}
use maroonedpods.Controller.Gate.Drained.{IsQueue, Drained, run_worker-Drained}
use maroonedpods.Controller.Gate.Workers.{IsExclusive, holders, one_if, run-Balanced}

-- the lease is held, and the wait for the caches is over
abbrev gating_app : App
gating_app = record { phase = gating; ready_chan = new_ready_chan }

abbrev reported_app : App
reported_app = record { phase = reported; ready_chan = record { buffered = 0; closed = true } }

gating_app-Reachable : Reachable gating_app
gating_app-Reachable = next (next start (Step.won new_ready_chan)) (Step.waited new_ready_chan)

reported_app-Reachable : Reachable reported_app
unfolding leader_probe receive on_started_leading
reported_app-Reachable =
    next (next gating_app-Reachable (Step.returned refl))
      (Step.probed reported reported_app.ready_chan)

leader_probe_iff_example :
    (((leader_probe reported_app.ready_chan).1 ≡ "true") ↔ (reported_app.phase ≡ reported))
    × ((reported_app.phase ≡ reported)
        ⊎ ((ch : ReadyChan) × (on_started_leading reported_app.ready_chan ≡ some ch)))
leader_probe_iff_example = leader_probe_iff reported_app reported_app-Reachable

abbrev take : List String → Got (List String)
take [] = blocked
take (key ∷ keys) = got_key key keys

abbrev queue : Queue
queue = record {
  State = List String;
  get = take;
  done = λ st key. st;
  forget_key = λ st key. st;
  add = λ st key. key ∷ st;
  add_rate_limited = λ st key. key ∷ st;
  shut_down = λ st. st;
}

taken :
    (st : List String) (key : String) (keys : List String)
    → st ≡ key ∷ keys
    → (st1 : List String) × (take st ≡ got_key key st1) × (st1 ≡ keys)
taken st key keys e = (keys, rw e refl, refl)

queue-IsQueue : IsQueue queue (λ st. st)
queue-IsQueue = record {
  get_pending = taken;
  get_empty = λ st e. inr (rw e refl);
  forget_pending = λ st key. refl;
  done_pending = λ st key. refl;
}

abbrev two_keys : List String
two_keys = "ns/a" ∷ "ns/b" ∷ []

run_worker-Drained_example :
    (end : Ended (List String)) × (run_worker queue (suc (length two_keys)) two_keys ≡ some end)
    × Drained queue two_keys two_keys end
run_worker-Drained_example = run_worker-Drained queue (λ st. st) queue-IsQueue two_keys

-- the keys that are pending, and those that are being processed
abbrev Sets : Type 0
Sets = List String × List String

abbrev is_busy : Sets → String → Bool
is_busy (pending, busy) k = any (λ key. k == key) busy

abbrev take_free : Sets → Got Sets
take_free ([], busy) = blocked
take_free (key ∷ keys, busy) =
    if is_busy (keys, busy) key then blocked else got_key key (keys, key ∷ busy)

abbrev without : String → List String → List String
without key [] = []
without key (k ∷ ks) = if k == key then without key ks else k ∷ without key ks

abbrev sets : Queue
sets = record {
  State = Sets;
  get = take_free;
  done = λ st key. (st.0, without key st.1);
  forget_key = λ st key. st;
  add = λ st key. (key ∷ st.0, st.1);
  add_rate_limited = λ st key. (key ∷ st.0, st.1);
  shut_down = λ st. ([], st.1);
}

without-busy :
    (key : String) (busy : List String) (k : String)
    → any (λ x. k == x) (without key busy) ≡ (not (k == key) && any (λ x. k == x) busy)
unfolding any
without-busy key [] k = ground arith
without-busy key (x ∷ xs) k =
    ground (arith, without-busy key xs k, eq_iff x key, eq_iff k x, eq_iff k key)

got_free :
    (st st1 : Sets) (key : String)
    → take_free st ≡ got_key key st1
    → (is_busy st key ≡ false) × (st1.1 ≡ key ∷ st.1)
got_free ([], busy) st1 key e = absurd (ground arith)
got_free (x ∷ xs, busy) st1 key e = elim (Bool-cases (is_busy (xs, busy) x)) [
  | inl b ↦ absurd (ground arith)
  | inr b ↦
      let taken : got_key x (xs, x ∷ busy) ≡ got_key key st1 = ground arith in
      let same : x ≡ key = ground arith in
      let left : (xs, x ∷ busy) ≡ st1 = ground arith in (rw (← same) b, rw (← left, same) refl)
]

sets-IsExclusive : IsExclusive sets is_busy
unfolding any
sets-IsExclusive = record {
  get_free = λ st st1 key e. (got_free st st1 key e).0;
  get_processing = λ st st1 key k e. ap (any (λ x. k == x)) (got_free st st1 key e).1;
  done_processing = λ st key k. without-busy key st.1 k;
  forget_processing = λ st key k. refl;
  add_processing = λ st key k. refl;
  shut_down_processing = λ st k. refl;
}

-- two workers, of which the first took the first key
abbrev one_taken : Pool sets
one_taken = record { workers = executing "ns/a" ∷ idle ∷ []; state = ("ns/b" ∷ [], "ns/a" ∷ []) }

one_taken-Runs : Runs sets (run sets 2 (two_keys, [])) one_taken
unfolding run idlers advance any
one_taken-Runs = Runs.next Runs.started (Gate.Step.moved [] (idle ∷ []) idle (two_keys, []))

run-Balanced_example :
    ((k : String) → holders sets k one_taken.workers ≡ one_if (is_busy one_taken.state k))
    × (length one_taken.workers ≡ 2)
unfolding any
run-Balanced_example =
    run-Balanced sets is_busy sets-IsExclusive 2 (two_keys, []) (λ k. refl) one_taken one_taken-Runs
