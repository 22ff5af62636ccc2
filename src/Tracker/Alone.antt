-- ===== src/Tracker/Alone.antt =====
-- A goroutine that no other interrupts (internal/loadbalancer/conn_tracker.go).
use orchids_2api.Prelude.{ℕ, Bool, ◌&&◌}
use orchids_2api.Prelude.Int.{ℤ, pos, ltb_ℤ, leb_ℤ}
use orchids_2api.Prelude.Assoc.{string_eq, nat_eq}
use orchids_2api.Tracker.{Conns, load_or_store}
use orchids_2api.Tracker.Interleaved.{Phase, advance}

-- The next two operations of a goroutine.
abbrev pub advance_twice : Conns → Phase → Conns × Phase
advance_twice conns p = advance (advance conns p).0 (advance conns p).1

abbrev is_refused : Conns → ℕ → ℤ → Bool
is_refused conns id limit = ltb_ℤ (pos 0) limit && leb_ℤ limit (load_or_store conns id).1
