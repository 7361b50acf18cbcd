-- ===== src/Controller/Leader.antt =====
-- application.go and leaderelectionconfig/config.go: the election of the leader and the probe that
-- reports it. The channel `readyChan` has a buffer of one, and closing it twice is a panic.
pub mod Reported
use maroonedpods.Prelude.{ℕ, zero, suc, String, ◌≡◌, Bool, true, false, Option, none, some}

-- the durations in seconds
pub record Configuration : Type 0 where
  pub lease_duration : ℕ
  pub renew_deadline : ℕ
  pub retry_period : ℕ
  pub resource_lock : String

-- `EndpointsLeasesResourceLock`
abbrev pub default_leader_election_configuration : Configuration
default_leader_election_configuration = record {
  lease_duration = 15;
  renew_deadline = 10;
  retry_period = 2;
  resource_lock = "endpointsleases";
}

-- the values in the channel, and whether it is closed
pub record ReadyChan : Type 0 where
  pub buffered : ℕ
  pub closed : Bool

-- `make(chan bool, 1)`
abbrev pub new_ready_chan : ReadyChan
new_ready_chan = record { buffered = 0; closed = false }

-- what the `select` receives
pub data Received : Type 0 where
  value end_of_values nothing : Received

unfoldable pub receive : ReadyChan → ReadyChan × Received
receive ch = elim ch.buffered [
  | suc n ↦ (record ch { buffered = n }, value)
  | zero ↦ elim ch.closed [ true ↦ (ch, end_of_values) | false ↦ (ch, nothing) ]
]

abbrev answer : Received → String
answer end_of_values = "true"
answer _ = "false"

-- the value of "leader" in the answer, whose status is 200 in every case
unfoldable pub leader_probe : ReadyChan → ReadyChan × String
unfolding receive
leader_probe ch = let (ch', received) = receive ch in (ch', answer received)

-- the end of `onStartedLeading`, after the caches were waited for and the gate controller was started
unfoldable pub on_started_leading : ReadyChan → Option ReadyChan
on_started_leading ch = elim ch.closed [ true ↦ none | false ↦ some (record ch { closed = true }) ]

-- where the process is: it runs for the election; it holds the lease, and the callback waits for the
-- caches; the goroutine of the gate controller was started; the callback has returned
pub data Phase : Type 0 where
  candidate elected gating reported : Phase

pub record App : Type 0 where
  pub phase : Phase
  pub ready_chan : ReadyChan

abbrev pub new_app : App
new_app = record { phase = Phase.candidate; ready_chan = new_ready_chan }

-- client-go calls `OnStartedLeading` once, in a goroutine, when the lease is won; a lost lease ends the
-- process. The wait for the caches may end or not. A probe comes at any time.
pub data Step : App → App → Type 0 where
  won :
      (ch : ReadyChan)
      → Step
          (record { phase = Phase.candidate; ready_chan = ch })
          (record { phase = Phase.elected; ready_chan = ch })
  waited :
      (ch : ReadyChan)
      → Step
          (record { phase = Phase.elected; ready_chan = ch })
          (record { phase = Phase.gating; ready_chan = ch })
  returned :
      {ch ch' : ReadyChan}
      → on_started_leading ch ≡ some ch'
      → Step
          (record { phase = Phase.gating; ready_chan = ch })
          (record { phase = Phase.reported; ready_chan = ch' })
  probed :
      (p : Phase) (ch : ReadyChan)
      → Step
          (record { phase = p; ready_chan = ch })
          (record { phase = p; ready_chan = (leader_probe ch).0 })

pub data Reachable : App → Type 0 where
  start : Reachable new_app
  next : {a b : App} → Reachable a → Step a b → Reachable b
