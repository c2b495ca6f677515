-- ===== src/Client/Receiver/Ports.antt =====
-- Which port the receiver gets.
use csc469_advanced_operatin.Base.{ℕ, ◌≤◌, ◌<◌, ◌≡◌, Bool, true, false, ◌⊎◌}
use csc469_advanced_operatin.Client.Receiver.{Started, send_ok, send_bind_failed}

-- The first free port from `port` to `last`, or none is free.
abbrev FirstFree : (ℕ → Bool) → (port last : ℕ) → Started → Type 0
FirstFree free port last r =
    ((p : ℕ) × (r ≡ send_ok p)
      × (free p ≡ true)
      × (port ≤ p)
      × (p ≤ last)
      × ((q : ℕ) → port ≤ q → q < p → free q ≡ false))
    ⊎ ((r ≡ send_bind_failed) × ((q : ℕ) → port ≤ q → q ≤ last → free q ≡ false))
