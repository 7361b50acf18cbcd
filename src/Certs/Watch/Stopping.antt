-- ===== src/Certs/Watch/Stopping.antt =====
-- cert-manager.go, `Stop`: it may be called any number of times, at any time.
use maroonedpods.Prelude.{◌≡◌, refl, true, some, arith}
use maroonedpods.Certs.Watch.{Manager, started, stop, Reach}
use maroonedpods.Certs.Watch.Progress.{Inv, Reach-Inv, started-Inv}

module _ {C : Type 0} where
  stop-of-Inv :
      (f : Manager C) → Inv f → stop C f ≡ some (record f { stopped = true; stop_ch_closed = true })
  unfolding stop
  stop-of-Inv f i = ground arith

  -- Whatever the goroutines did since `Start`, other calls of `Stop` included, `Stop` does not
  -- panic: it leaves the channel closed and all else as it was, and one more call changes nothing.
  pub stop_safe :
      (f : Manager C)
      → Reach C (started C) f
      → (f' : Manager C) × (stop C f ≡ some f')
        × (f' ≡ record f { stopped = true; stop_ch_closed = true })
        × (stop C f' ≡ some f')
  unfolding stop
  stop_safe f r = (
    record f { stopped = true; stop_ch_closed = true },
    stop-of-Inv f (Reach-Inv started-Inv r),
    refl,
    refl,
  )
