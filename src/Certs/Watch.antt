-- ===== src/Certs/Watch.antt =====
-- pkg/certificates/bootstrap/cert-manager.go, `FileCertificateManager`: the loop that loads the
-- certificate from files, with its two kinds of goroutine, as a step relation on their shared state.
pub mod Progress
pub mod Stopping
pub mod Tests
use maroonedpods.Prelude.{
  ℕ, suc, Bool, true, false, Option, none, some, ◌≡◌, Result, ok, err, Error,
}

-- where the goroutine that called `Start` is
pub data Place : Type 0 where
  starting looping exited : Place

module _ (C : Type 0) where
  -- `object_updated` says whether the channel of that name, of capacity 1, holds a token;
  -- `sleeping` counts the goroutines that wait to send a retry
  pub record Manager : Type 0 where
    pub place : Place
    pub object_updated : Bool
    pub sleeping : ℕ
    pub stopped : Bool
    pub stop_ch_closed : Bool
    pub cert : Option C

  -- the state when `Start` has set up the watches, with the loop still to begin
  unfoldable pub started : Manager
  started = record {
    place = starting;
    object_updated = false;
    sleeping = 0;
    stopped = false;
    stop_ch_closed = false;
    cert = none;
  }

  -- `rotateCerts`, given what `loadCertificates` returned
  unfoldable pub rotate_certs : Result C → Manager → Manager × Option Error
  rotate_certs (err e) f = (f, some e)
  rotate_certs (ok crt) f = (record f { cert = some crt }, none)

  -- the body of `case <-objectUpdated`, which has taken the token
  unfoldable pub on_updated : Result C → Manager → Manager
  unfolding rotate_certs
  on_updated loaded f =
      let (f', error) = rotate_certs loaded (record f { object_updated = false }) in
      elim error [ none ↦ f' | some _ ↦ record f' { sleeping = suc f'.sleeping } ]

  -- `none` is the panic of closing a closed channel
  unfoldable pub close_stop_ch : Manager → Option Manager
  close_stop_ch f = elim f.stop_ch_closed [
    | true ↦ none
    | false ↦ some (record f { stop_ch_closed = true })
  ]

  unfoldable pub stop : Manager → Option Manager
  unfolding close_stop_ch
  stop f = elim f.stopped [
    | true ↦ some f
    | false ↦ elim (close_stop_ch f) [ none ↦ none | some f' ↦ some (record f' { stopped = true }) ]
  ]

  -- One step of one goroutine. A send on a full channel blocks, or is dropped under `default`.
  pub data Step (f : Manager) : Manager → Type 0 where
    -- the watcher's goroutine wakes the loop
    file_event : Step f (record f { object_updated = true })
    -- `objectUpdated <- struct{}{}` before the loop
    first_token :
        f.place ≡ starting
        → f.object_updated ≡ false
        → Step f (record f { place = looping; object_updated = true })
    reload :
        (loaded : Result C)
        → f.place ≡ looping
        → f.object_updated ≡ true
        → Step f (on_updated loaded f)
    -- a sleeper ends and sends
    retry : {n : ℕ} → f.sleeping ≡ suc n → Step f (record f { sleeping = n; object_updated = true })
    stop_called : {f' : Manager} → stop f ≡ some f' → Step f f'
    break_sync : f.place ≡ looping → f.stop_ch_closed ≡ true → Step f (record f { place = exited })

  pub data Reach (f : Manager) : Manager → Type 0 where
    here : Reach f f
    next : {g h : Manager} → Reach f g → Step g h → Reach f h
