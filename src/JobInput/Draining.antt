-- ===== src/JobInput/Draining.antt =====
-- The delivery chain of the input channel runs empty.
use mira_bridge.Base.{ℕ, zero, suc, ◌+◌, true, false, List, [], ◌∷◌, length}
use mira_bridge.JobInput.{Effect, write, flush}
use mira_bridge.JobInput.Delivery.{Event, delivered}

-- How many turns an effect takes; a write that closes enqueues the close.
abbrev effort : Effect → ℕ
effort (write bytes true) = 2
effort (write bytes false) = 1
effort (flush chunks) = length chunks + 2
effort _ = 1

unfoldable pub turns_left : List Effect → ℕ
turns_left [] = 0
turns_left (e ∷ es) = effort e + turns_left es

unfoldable pub deliveries : ℕ → List Event
deliveries zero = []
deliveries (suc n) = delivered ∷ deliveries n
