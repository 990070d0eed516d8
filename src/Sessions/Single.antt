-- ===== src/Sessions/Single.antt =====
-- The live sessions of a family.
use shiptawk_be.Prelude.{ℕ, ◌≤◌, count}
use shiptawk_be.Sessions.{Table}
use shiptawk_be.Sessions.Rows.{is_live_in}

-- At most one session of each family can still be rotated.
abbrev pub IsSingle : Table → Type 0
IsSingle rows = (family : ℕ) → count (is_live_in family) rows ≤ 1
