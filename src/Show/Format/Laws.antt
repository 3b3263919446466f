-- ===== src/Show/Format/Laws.antt =====
-- The units of pretty_time.
use router1_app.Prelude.{ℕ, ◌+◌, ◌*◌, ◌<◌, ◌≡◌, arith}
use router1_app.Show.Format.{Units, units_of}

-- The seconds that the units stand for.
abbrev pub total : Units → ℕ
total u = u.years * 31536000 + u.days * 86400 + u.hours * 3600 + u.minutes * 60 + u.seconds

-- No unit reaches the next larger one.
abbrev pub IsReduced : Units → Type 0
IsReduced u = (u.days < 365) × (u.hours < 24) × (u.minutes < 60) × (u.seconds < 60)

-- The units that pretty_time writes add up to the seconds that it is given, and none of them reaches
-- the next larger one.
pub units_of_lem : (left : ℕ) → (total (units_of left) ≡ left) × IsReduced (units_of left)
unfolding units_of
units_of_lem left = (omega arith, (omega arith, omega arith, omega arith, omega arith))
