-- ===== src/Tests/Driving.antt =====
-- Driving mode after one request.
use traffic_analysis.Base.{ℕ, Bool, false, String, Option, none}
use traffic_analysis.Store.{Result, ok}
use traffic_analysis.Driving.{Backend}

abbrev read_off : ℕ → Result Bool
read_off n = ok false

abbrev write_ok : ℕ → Bool → Option String
write_ok n enabled = none

abbrev pub memory : Backend
memory = record { has_database = false; is_postgres = false; read = read_off; write = write_ok }
