-- ===== src/Certs/Watch/Progress.antt =====
-- cert-manager.go, `Start`: a reload that failed is tried again, and how the loop can fail to begin.
use maroonedpods.Prelude.{
  ◌<◌, ◌≡◌, refl, ◌⊎◌, Bool, true, false, Option, none, some, arith, ok, err, Error,
}
use maroonedpods.Certs.Watch.{starting, looping, Manager, started, on_updated, stop, Step, Reach}

module _ {C : Type 0} where
  -- what holds between steps
  pub record Inv (f : Manager C) : Type 0 where
    pub closed_once : f.stopped ≡ f.stop_ch_closed
    pub no_cert : f.place ≡ starting → f.cert ≡ none

  pub started-Inv : Inv (started C)
  unfolding started
  started-Inv = ground arith

  stop-Inv : {f f' : Manager C} → Inv f → stop C f ≡ some f' → Inv f'
  unfolding stop
  stop-Inv i e = ground arith

  Step-Inv : {f g : Manager C} → Inv f → Step C f g → Inv g
  unfolding on_updated
  Step-Inv i Step.file_event = ground arith
  Step-Inv i (Step.first_token p u) = ground arith
  Step-Inv i (Step.reload (ok c) p u) = ground arith
  Step-Inv i (Step.reload (err e) p u) = ground arith
  Step-Inv i (Step.retry e) = ground arith
  Step-Inv i (Step.stop_called e) = stop-Inv i e
  Step-Inv i (Step.break_sync p c) = ground arith

  pub Reach-Inv : {f g : Manager C} → Inv f → Reach C f g → Inv g
  Reach-Inv i Reach.here = i
  Reach-Inv i (Reach.next r s) = Step-Inv (Reach-Inv i r) s

  -- whether a step is a load that succeeds
  abbrev succeeds : {f g : Manager C} → Step C f g → Bool
  succeeds (Step.reload (ok _) _ _) = true
  succeeds _ = false

  -- A load failed while the certificate was `kept`, and since then none has succeeded.
  pub data SinceFailure (kept : Option C) : Manager C → Type 0 where
    failed :
        {f : Manager C} (e : Error)
        → Reach C (started C) f
        → f.place ≡ looping
        → f.object_updated ≡ true
        → f.cert ≡ kept
        → SinceFailure kept (on_updated C (err e) f)
    since :
        {f g : Manager C}
        → SinceFailure kept f
        → (s : Step C f g) → succeeds s ≡ false
        → SinceFailure kept g

  -- the old certificate, and an attempt that is due
  record Due (kept : Option C) (f : Manager C) : Type 0 where
    pub same : f.cert ≡ kept
    pub attempt : (f.object_updated ≡ true) ⊎ (0 < f.sleeping)

  stop-Due : {kept : Option C} {f f' : Manager C} → Due kept f → stop C f ≡ some f' → Due kept f'
  unfolding stop
  stop-Due d e = ground arith

  Step-Due :
      {kept : Option C} {f g : Manager C}
      → Due kept f
      → (s : Step C f g) → succeeds s ≡ false
      → Due kept g
  unfolding on_updated
  Step-Due d Step.file_event n = ground arith
  Step-Due d (Step.first_token p u) n = ground arith
  Step-Due d (Step.reload (ok c) p u) n = absurd (ground arith)
  Step-Due d (Step.reload (err e) p u) n = ground arith
  Step-Due d (Step.retry e) n = ground arith
  Step-Due d (Step.stop_called e) n = stop-Due d e
  Step-Due d (Step.break_sync p c) n = ground arith

  SinceFailure-Due : {kept : Option C} {f : Manager C} → SinceFailure kept f → Due kept f
  unfolding on_updated
  SinceFailure-Due (failed e r p u k) = ground arith
  SinceFailure-Due (since w s n) = Step-Due (SinceFailure-Due w) s n

  -- After a load that failed, whatever the goroutines do until one succeeds, the certificate is the one
  -- from before, and a token waits in the channel or a sleeper will send one: a load that failed is never
  -- the last attempt of a loop that runs on.
  pub failed_load-retried :
      {kept : Option C} {f : Manager C}
      → SinceFailure kept f
      → (f.cert ≡ kept) × ((f.object_updated ≡ true) ⊎ (0 < f.sleeping))
  failed_load-retried w = let d = SinceFailure-Due w in (d.same, d.attempt)

  record Stuck (f : Manager C) : Type 0 where
    pub place : f.place ≡ starting
    pub full : f.object_updated ≡ true
    pub no_cert : f.cert ≡ none

  stop-Stuck : {f f' : Manager C} → Stuck f → stop C f ≡ some f' → Stuck f'
  unfolding stop
  stop-Stuck k e = ground arith

  Step-Stuck : {f g : Manager C} → Stuck f → Step C f g → Stuck g
  Step-Stuck k Step.file_event = ground arith
  Step-Stuck k (Step.first_token p u) = absurd (ground arith)
  Step-Stuck k (Step.reload l p u) = absurd (ground arith)
  Step-Stuck k (Step.retry e) = ground arith
  Step-Stuck k (Step.stop_called e) = stop-Stuck k e
  Step-Stuck k (Step.break_sync p c) = absurd (ground arith)

  Reach-Stuck : {f g : Manager C} → Stuck f → Reach C f g → Stuck g
  Reach-Stuck k Reach.here = k
  Reach-Stuck k (Reach.next r s) = Step-Stuck (Reach-Stuck k r) s

  -- If a file event comes before the loop's own first token, the goroutine that called `Start`
  -- never gets past its send: whatever happens then, it stays there and no certificate is loaded.
  pub early_event_deadlock :
      {f : Manager C}
      → Reach C (record (started C) { object_updated = true }) f
      → (f.place ≡ starting) × (f.cert ≡ none)
  unfolding started
  early_event_deadlock r =
      let k = Reach-Stuck (record { place = refl; full = refl; no_cert = refl }) r in
      (k.place, k.no_cert)
