-- ===== src/Controller/Leader/Reported.antt =====
-- The probe says "true" exactly when the callback of the election has returned.
use maroonedpods.Prelude.{◌≡◌, refl, ap, sym, ◌∙◌, eq_iff, ◌↔◌, ◌⊎◌, inl, inr, true, some, arith}
use maroonedpods.Controller.Leader.{
  ReadyChan, new_ready_chan, receive, leader_probe, on_started_leading, Phase, candidate, elected,
  gating, reported, App, Step, won, waited, returned, probed, Reachable, start, next,
}

-- the channel is empty, and closed once the callback has returned
abbrev channel_of : Phase → ReadyChan
channel_of reported = record new_ready_chan { closed = true }
channel_of _ = new_ready_chan

Step-channel :
    {a b : App} → Step a b → a.ready_chan ≡ channel_of a.phase → b.ready_chan ≡ channel_of b.phase
unfolding on_started_leading leader_probe receive
Step-channel (won ch) e = e
Step-channel (waited ch) e = e
Step-channel (returned {ch} {ch'} made) e =
    let closed : some (channel_of reported) ≡ some ch' = ap on_started_leading (sym e) ∙ made in
    ground arith
Step-channel (probed candidate ch) e = rw e refl
Step-channel (probed elected ch) e = rw e refl
Step-channel (probed gating ch) e = rw e refl
Step-channel (probed reported ch) e = rw e refl

Reachable-channel : {a : App} → Reachable a → a.ready_chan ≡ channel_of a.phase
Reachable-channel start = refl
Reachable-channel (next r s) = Step-channel s (Reachable-channel r)

answers : (p : Phase) → ((leader_probe (channel_of p)).1 ≡ "true") ↔ (p ≡ reported)
unfolding leader_probe receive
answers candidate =
    (λ h. absurd (ground (arith, eq_iff "false" "true")), λ h. absurd (ground arith))
answers elected = (λ h. absurd (ground (arith, eq_iff "false" "true")), λ h. absurd (ground arith))
answers gating = (λ h. absurd (ground (arith, eq_iff "false" "true")), λ h. absurd (ground arith))
answers reported = (λ _. refl, λ _. refl)

opened :
    (p : Phase)
    → (p ≡ reported) ⊎ ((ch : ReadyChan) × (on_started_leading (channel_of p) ≡ some ch))
unfolding on_started_leading
opened candidate = inr (channel_of reported, refl)
opened elected = inr (channel_of reported, refl)
opened gating = inr (channel_of reported, refl)
opened reported = inl refl

-- In every state that the process reaches, by the election and any number of probes, a probe answers
-- that it is the leader exactly if the callback of the election has returned, not yet while it holds the
-- lease and waits for the caches; and before that, closing the channel is not a panic.
pub leader_probe_iff :
    (a : App)
    → Reachable a
    → (((leader_probe a.ready_chan).1 ≡ "true") ↔ (a.phase ≡ reported))
      × ((a.phase ≡ reported) ⊎ ((ch : ReadyChan) × (on_started_leading a.ready_chan ≡ some ch)))
leader_probe_iff a r = rw (Reachable-channel r) (answers a.phase, opened a.phase)
