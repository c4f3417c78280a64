-- ===== src/Database/Connection/Quiet.antt =====
-- Connections of which no statement fails.
use dn42_utils.Base.{◌≡◌, refl, arith, Bool, true, false, not, List, [], ◌∷◌, any}
use dn42_utils.Database.Connection.{next_fault, later_faults}

-- None of the coming statements fails.
abbrev pub no_fault : List Bool → Bool
no_fault faults = not (any (λ b. b) faults)

pub no_fault-parts :
    (faults : List Bool)
    → no_fault faults ≡ true
    → (next_fault faults ≡ false) × (no_fault (later_faults faults) ≡ true)
no_fault-parts [] h = (refl, refl)
no_fault-parts (b ∷ bs) h = ground arith
