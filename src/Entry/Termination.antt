-- ===== src/Entry/Termination.antt =====
-- The program comes to an end, on a well-formed machine.
use risc5_simulator.Simulator.Invariant.{WellFormed}
use risc5_simulator.Session.{Session}
use risc5_simulator.Entry.{Ending}

-- An ending that is one: not for want of fuel, and with a well-formed machine if it is regular.
abbrev pub Ends : Ending → Type 0
Ends (Ending.finished s) = WellFormed s.machine
Ends Ending.failed = Unit {0}
Ends Ending.crashed = Unit {0}
Ends Ending.stuck = ⊥
