-- ===== src/Sql/Tests.antt =====
-- Runs of the adapter, and each of its properties at a concrete input.
use gpool.Base.{
  ℕ, ◌≡◌, refl, true, false, List, [], ◌∷◌, none, some, ◌==◌, length, ℤ, pos, negsuc, not,
}
use gpool.Pooling.Config.{Config}
use gpool.Pooling.Conn.{IdleConn}
use gpool.Pooling.Shard.{shard_count}
use gpool.Pooling.Core.{Core, start_core, pop_idle}
use gpool.Pooling.Core.Release.{release}
use gpool.Pooling.Core.Idle.{EveryIdle, HandedAt, EveryIdle-empty}
use gpool.Sql.Value.{
  null, int64, uint_kind, text, w8, w64, string_dest, uint_dest, int_dest, bytes_held, uint_held,
  int_held, Formats, assign, scan_into, assign_number, assign_integer, assign_string, to_int64,
  to_uint64, wrap_int, wrap_uint, signed, stringify,
}
use gpool.Sql.Value.Integers.{of_int64, assign-fits, same_int, fits_uint, fits_int}
use gpool.Sql.Conn.{Conn, Answers, adapter}
use gpool.Sql.Conn.Unbound.{Unbound, Use, begins, ends, use_conn, release-Unbound}
use gpool.Sql.Rows.{Answer, row, failure, Row, new_rows, new_row, all, scan_row, rows_closed}
use gpool.Sql.Rows.Once.{scans, releases, use_row, Finished, use_row-Finished_once}
use gpool.Sql.Rows.Iterate.{Iterated, all-Iterated}

-- Floats and times are numbers here.
abbrev formats : Formats ℕ ℕ
formats = record {
  to_float32 = λ x. x;
  float_of = λ v. 0;
  truncate = λ x. pos x;
  parse_float = λ s. none;
  parse_int = λ s. some (pos (length s));
  parse_bool = λ s. none;
  parse_time = λ layout s. none;
  stringify_value = λ v. [];
}

narrowed : assign formats [] (int_dest w8) (int64 (pos 300)) ≡ some (int_held (pos 44))
unfolding assign assign_number assign_integer to_int64 wrap_int signed wrap_uint
narrowed = refl

unsigned :
    assign formats [] (uint_dest w64) (int64 (negsuc 0))
    ≡ some (uint_held 18_446_744_073_709_551_615)
unfolding assign assign_number assign_integer to_uint64 to_int64 wrap_uint
unsigned = refl

scanned_row :
    scan_into formats [] (int_dest w8 ∷ string_dest ∷ []) (uint_kind 7 ∷ text (65 ∷ []) ∷ [])
    ≡ some (int_held (pos 7) ∷ bytes_held (65 ∷ []) ∷ [])
unfolding scan_into assign assign_number assign_integer to_int64 assign_string wrap_int stringify
    signed wrap_uint
scanned_row = refl

scanned_null : scan_into formats [] (int_dest w8 ∷ []) (null ∷ []) ≡ none
unfolding scan_into assign assign_number
scanned_null = refl

assign-fits_example :
    ((n : ℕ) × (assign formats [] (uint_dest w8) (int64 (pos 300)) ≡ some (uint_held n))
      × (fits_uint w8 (pos n) ≡ true)
      × (same_int (pos n) (pos 300) ≡ fits_uint w8 (pos 300)))
    × ((v : ℤ) × (assign formats [] (int_dest w8) (int64 (pos 300)) ≡ some (int_held v))
        × (fits_int w8 v ≡ true)
        × (same_int v (pos 300) ≡ fits_int w8 (pos 300)))
assign-fits_example =
    assign-fits formats [] w8 (int64 (pos 300)) (pos 300) (of_int64 (pos 300) refl)

abbrev answers : Answers
answers = record { resets = true; rolls_back = λ id. not (id == 9); reset_session = true }

abbrev config : Config
config = record {
  max_conns = pos 2;
  max_conns_limit = pos 3;
  min_conns = pos 1;
  max_conn_idle_time = pos 50;
  max_conn_lifetime = pos 100;
  health_check_period = pos 0;
  cleanup_timeout = pos 0;
  connect_timeout = pos 0;
}

abbrev engine : Core Conn
engine = start_core config 0

abbrev acquired : IdleConn Conn
acquired = record {
  conn = record { tx = none; open_tx = none; valid = true };
  created_at = 0;
  idle_since = 0;
}

abbrev uses : List Use
uses = begins 1 true ∷ ends ∷ begins 2 false ∷ begins 3 true ∷ []

release-Unbound_example :
    let used : IdleConn Conn = record acquired { conn = use_conn uses acquired.conn } in
    EveryIdle Unbound (release (adapter answers) used 0 engine).shards
    × HandedAt Unbound (pop_idle (adapter answers) 0 (release (adapter answers) used 0 engine)).1
release-Unbound_example =
    release-Unbound answers acquired uses 0 0 engine (refl, refl)
      (EveryIdle-empty Unbound shard_count)

abbrev query : List (Answer ℕ ℕ)
query = row 5 ∷ row 6 ∷ failure 3 ∷ row 7 ∷ []

use_row-Finished_once_example :
    let r : Row ℕ ℕ =
      use_row (scans ∷ releases ∷ scans ∷ []) (new_row (new_rows query true true (some 4))) in
    Finished true true r × ((scan_row r).1 ≡ rows_closed)
use_row-Finished_once_example =
    use_row-Finished_once query true true (some 4) scans (releases ∷ scans ∷ [])

all-Iterated_example :
    Iterated true false
      (some 3)
      (some 5 ∷ some 6 ∷ [])
      (all 5 (λ n. true) (new_rows query true false (some 4)))
all-Iterated_example = all-Iterated (λ n. true) true false (some 4) query
