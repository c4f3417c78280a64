-- ===== src/AutoPeer/Calls.antt =====
-- The critical sections of src/dn42ctl/services/auto_peer.py in any order, as the lock lets them run.
use dn42_utils.Base.{ℕ, ◌<◌, String, ◌≡◌, Bool, true, false, List, [], ◌∷◌, ◌==◌}
use dn42_utils.AutoPeer.{
  Store, Identity, Attempt, granted, refused, open_session, claim_session, release_session,
  pop_session,
}

pub data Call : Type 0 where
  opens : ℕ → String → Identity → Call
  claims : ℕ → String → Call
  releases pops : String → Call

abbrev pub step : Call → Store → Store
step (opens now token identity) st = (open_session now token identity st).1
step (claims now token) st = (claim_session now token st).1
step (releases token) st = release_session token st
step (pops token) st = pop_session token st

unfoldable pub run : List Call → Store → Store
run [] st = st
run (call ∷ calls) st = run calls (step call st)

-- The calls come before a time.
abbrev pub Before : ℕ → List Call → Type 0
Before limit [] = Unit
Before limit (opens now token identity ∷ calls) = (now < limit) × Before limit calls
Before limit (claims now token ∷ calls) = (now < limit) × Before limit calls
Before limit (call ∷ calls) = Before limit calls

-- The calls neither issue a token again nor give it back.
abbrev pub Keeps : String → List Call → Type 0
Keeps token [] = Unit
Keeps token (opens now other identity ∷ calls) = ((other == token) ≡ false) × Keeps token calls
Keeps token (claims now other ∷ calls) = Keeps token calls
Keeps token (releases other ∷ calls) = ((other == token) ≡ false) × Keeps token calls
Keeps token (pops other ∷ calls) = ((other == token) ≡ false) × Keeps token calls

abbrev pub is_granted : {A : Type 0} → Attempt A → Bool
is_granted (granted a) = true
is_granted (refused r) = false
