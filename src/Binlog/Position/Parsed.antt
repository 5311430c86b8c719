-- ===== src/Binlog/Position/Parsed.antt =====
-- vendors/mysql/cdc/position.go: what was written is read back.
use gpool.Base.{ℕ, ◌≡◌, refl, true, [], ◌∷◌, some, leb}
use gpool.Proxy.Scram.{cut_prefix, colon}
use gpool.Proxy.Scram.Stored.{Lacks, cut-append}
use gpool.Binlog.Position.{Texts, Position, gtid_at, file_at, encode, read_position}

-- A set of GTIDs and a 32-bit number are read back from their texts.
pub record TextsLaws {G : Type 0} (x : Texts G) : Type 0 where
  pub parse_gtid-gtid_text : (set : G) → x.parse_gtid (x.gtid_text set) ≡ some set
  pub parse_uint32-digits :
      (n : ℕ) → leb n 4_294_967_295 ≡ true → x.parse_uint32 (x.digits n) ≡ some n

-- A place that can be named: the name of a file is not empty and has no colon, and its offset is a
-- 32-bit number.
abbrev pub Named : {G : Type 0} → Position G → Type 0
Named (gtid_at set) = Unit {0}
Named (file_at [] pos) = ⊥
Named (file_at (b ∷ name) pos) = Lacks colon (b ∷ name) × (leb pos 4_294_967_295 ≡ true)

-- A consumer gets back the place that it stored. The text of a GTID set, or of a file without a
-- colon in its name and a 32-bit offset, is read as that very place, never as the other notation, if
-- the texts of sets and numbers are read back.
pub read_position-encode :
    {G : Type 0} (x : Texts G)
    → TextsLaws x
    → (p : Position G) → Named p
    → read_position x (encode x p) ≡ some p
unfolding encode read_position cut_prefix
read_position-encode x laws (gtid_at set) h = rw (laws.parse_gtid-gtid_text set) refl
read_position-encode x laws (file_at [] pos) h = elim h [ ]
read_position-encode x laws (file_at (b ∷ name) pos) h =
    rw (cut-append colon (b ∷ name) (x.digits pos) h.0, laws.parse_uint32-digits pos h.1) refl
