-- ===== src/ModuleLibrary/Async/Loading.antt =====
-- The wait of `loadLibrary` for the process of the library.
use module_gateway.Common.{ℕ, ◌+◌, ◌≤◌, ◌<◌, true, List, [], ◌∷◌, ◌≡◌, ◌⊎◌}
use module_gateway.ModuleLibrary.Async.{Poll, module_binary_poll_interval}

-- Each round is at least the interval later than the one before it, or than the start.
abbrev pub Advancing : ℕ → List Poll → Type 0
Advancing start [] = Unit {0}
Advancing start (p ∷ ps) = (start + module_binary_poll_interval ≤ p.now) × Advancing p.now ps

-- The process answers in a round before which it ran, in time.
abbrev pub Answers : ℕ → List Poll → Type 0
Answers deadline [] = ⊥
Answers deadline (p ∷ ps) =
    (p.answers ≡ true) ⊎ ((p.running ≡ true) × (p.now < deadline) × Answers deadline ps)
