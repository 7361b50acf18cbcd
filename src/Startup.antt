-- ===== src/Startup.antt =====
-- The start of the three programs: what each does in order, until it ends or runs.
pub mod Controller
pub mod Server
pub mod Operator
pub mod Ordered
pub mod Elected
pub mod Permitted
pub mod Wired
pub mod Verbosity
pub mod Tests
use maroonedpods.Prelude.{ℕ, String, Bool, List, [], ◌∷◌, ◌++◌}
use maroonedpods.Informers.{SharedIndexInformer}
use maroonedpods.Controller.Leader.{Configuration}

-- What a program does that others see, or that something later relies on, in the order of its own calls; of
-- a goroutine that it starts, the start is the event.
pub data Event : Type 0 where
  -- a route of the default mux
  routed : String → Event
  -- `Run` of an informer, in a goroutine
  started : SharedIndexInformer → Event
  -- `WaitForCacheSync` on informers came back
  waited : List SharedIndexInformer → Bool → Event
  -- `Start` of the certificate manager of a secret in a namespace
  certs_started : String → String → Event
  -- a TLS server at an address, which the controller starts in a goroutine
  serving : String → Event
  -- the leader elector runs, over the lock in the namespace
  electing : Configuration → String → Event
  -- `Run` of the gate controller, in a goroutine, with the number of its workers
  gating : ℕ → Event
  -- the channel that the probe looks at is closed
  ready : Event

-- how `main` ends: with an exit code, by a fatal log line, or by a panic; or it runs on
pub data End : Type 0 where
  exited : ℕ → End
  fatal panicked running : End

pub record Process : Type 0 where
  pub events : List Event
  pub end : End

-- what `WaitForCacheSync` comes to: it returns when the caches have synced, with false when the process is
-- told to stop, or it waits on
pub data Wait : Type 0 where
  synced stopped blocked : Wait

abbrev pub ends : End → Process
ends end = record { events = []; end = end }

abbrev pub then_ : Event → Process → Process
then_ e p = record p { events = e ∷ p.events }

abbrev pub after : List Event → Process → Process
after es p = record p { events = es ++ p.events }
