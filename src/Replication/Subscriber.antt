-- ===== src/Replication/Subscriber.antt =====
-- pkg/vendors/postgres/cdc/subscriber.go: the subscriber, its connections and its tables.
--
-- The server and what reaches it (dialling, the statements, START_REPLICATION, closing) are a record
-- of functions on a state of the server's own, and so is what pgconn and pglogrepl parse. The
-- subscriber's mutex makes each method one step; `Close` sets `closed` before it drops the mutex, so
-- that no other method does anything between its two halves.
pub mod Methods
mod Outcomes
mod Steps
pub mod Calls
mod Configured
pub mod Sound
pub mod Lifetime
pub mod Resume
pub mod Tracks
pub mod Published
pub mod Agreement
pub mod Histories
use gpool.Base.{
  ℕ, zero, suc, ◌+◌, Bool, true, false, not, ◌&&◌, List, [], ◌∷◌, ◌++◌, Option, none, some, leb,
  if◌then◌else◌, Bytes,
}
use gpool.Replication.Catalog.{
  quote_literal, split_qualified_name, has, is_empty, dedupe, difference, intersection,
}
use gpool.Replication.Statements.{Statement, Config, with_defaults, no_tables, Complaint, validate}

-- What the server answers to a command; the two in the middle are errors that it names.
pub data Reply : Type 0 where
  done : Reply
  duplicate_object : Reply
  undefined_object : Reply
  refused : Reply

pub data Error : Type 0 where
  closed_error : Error
  already_subscribed : Error
  position_behind_slot : Error
  no_tables_error : Error
  invalid_config : Error
  server_error : Error

pub record Server (S : Type 0) : Type 0 where
  pub parses_config : Bytes → Bool
  pub parse_lsn : Bytes → Option ℕ
  pub connect : Bytes → S → S × Bool
  pub connect_replication : Bytes → S → S × Bool
  pub is_closed : S → Bool
  pub close : S → S × Bool
  pub exec : Statement → S → S × Reply
  pub confirmed : Bytes → S → S × Option Bytes
  pub covers : Bytes → Bytes → Bytes → S → S × Option Bool
  pub create_slot : Bytes → S → S × Reply
  pub drop_slot : Bytes → S → S × Reply
  pub start_replication : Bytes → Bytes → ℕ → S → S × Bool

-- `ctrl` and `stream` say whether those pointers are set. The last four are the world's: the
-- server's state, how many connections were dialled and how many closed, and where the stream that a
-- consumer holds open began.
pub record Postgres (S : Type 0) : Type 0 where
  pub config : Config
  pub ctrl : Bool
  pub stream : Bool
  pub closed : Bool
  pub streaming : Bool
  pub server : S
  pub dialled : ℕ
  pub hung_up : ℕ
  pub live : Option ℕ

pub data Result {ℓ} (A : Type ℓ) : Type ℓ where
  ok : A → Result A
  err : Error → Result A

abbrev pub M : Type 0 → Type 0 → Type 0
M S A = Postgres S → Postgres S × Result A

module _ {S A B : Type 0} where
  abbrev pub then_with : (A → M S B) → Postgres S × Result A → Postgres S × Result B
  then_with f (p, ok a) = f a p
  then_with f (p, err e) = (p, err e)

  infixl 5 ◌>>=◌
  abbrev pub ◌>>=◌ : M S A → (A → M S B) → M S B
  ◌>>=◌ m f p = then_with f (m p)

infixl 5 ◌>>◌
abbrev pub ◌>>◌ : {S B : Type 0} → M S (Unit {0}) → M S B → M S B
m >> k = m >>= λ _. k

module _ {S : Type 0} where
  abbrev pub return : {A : Type 0} → A → M S A
  return a p = (p, ok a)

  abbrev pub fail : {A : Type 0} → Error → M S A
  fail e p = (p, err e)

  abbrev pub choose : {A : Type 0} → Bool → M S A → M S A → M S A
  choose true m n p = m p
  choose false m n p = n p

  abbrev pub when : Bool → M S (Unit {0}) → M S (Unit {0})
  when b m = choose b m (return tt)

  -- `if err != nil` after a command, and the same where an error of one kind is none.
  abbrev pub expect_done : Reply → M S (Unit {0})
  expect_done done = return tt
  expect_done duplicate_object = fail server_error
  expect_done undefined_object = fail server_error
  expect_done refused = fail server_error

  abbrev pub unless_duplicate : Reply → M S (Unit {0})
  unless_duplicate done = return tt
  unless_duplicate duplicate_object = return tt
  unless_duplicate undefined_object = fail server_error
  unless_duplicate refused = fail server_error

  abbrev pub unless_undefined : Reply → M S (Unit {0})
  unless_undefined done = return tt
  unless_undefined duplicate_object = fail server_error
  unless_undefined undefined_object = return tt
  unless_undefined refused = fail server_error

  -- A method that reads its configuration, and one that must not run on a closed subscriber.
  abbrev pub reading : {A : Type 0} → (Config → M S A) → M S A
  reading f p = f p.config p

  abbrev pub unless_closed : {A : Type 0} → M S A → M S A
  unless_closed m p = choose p.closed (fail closed_error) m p

-- `New`, which dials nothing.
unfoldable pub new : {S : Type 0} → Config → S → Option Complaint × Postgres S
new config s = (
  validate config,
  record {
    config = record (with_defaults config) { tables = dedupe config.tables };
    ctrl = false;
    stream = false;
    closed = false;
    streaming = false;
    server = s;
    dialled = 0;
    hung_up = 0;
    live = none;
  },
)

module _ {S : Type 0} (srv : Server S) where
  -- The end of a connection that `dialled` counts.
  unfoldable pub close_conn : Postgres S → Postgres S
  close_conn p = record p { server = (srv.close p.server).0; hung_up = suc p.hung_up }

  abbrev drop_control : Postgres S → Postgres S
  drop_control p = if p.ctrl then record (close_conn p) { ctrl = false } else p

  abbrev dialled_control : Postgres S → S × Bool → Postgres S × Result (Unit {0})
  dialled_control p (s, true) =
      (record p { server = s; ctrl = true; dialled = suc p.dialled }, ok tt)
  dialled_control p (s, false) = (record p { server = s }, err server_error)

  unfoldable pub control_conn : M S (Unit {0})
  control_conn p =
      let redialled : Postgres S × Result (Unit {0}) =
        (let q : Postgres S = drop_control p in
          dialled_control q (srv.connect q.config.conn_string q.server)) in
      if p.ctrl && not (srv.is_closed p.server) then (p, ok tt) else redialled

  abbrev dialled_replication : Postgres S → S × Bool → Postgres S × Result (Unit {0})
  dialled_replication p (s, true) = (record p { server = s; dialled = suc p.dialled }, ok tt)
  dialled_replication p (s, false) = (record p { server = s }, err server_error)

  unfoldable pub dial_replication : M S (Unit {0})
  dial_replication p =
      if srv.parses_config p.config.conn_string
      then dialled_replication p (srv.connect_replication p.config.conn_string p.server)
      else (p, err invalid_config)

  abbrev replied {ℓ} : {A : Type ℓ} → Postgres S → S × A → Postgres S × Result A
  replied p (s, a) = (record p { server = s }, ok a)

  unfoldable pub exec : Statement → M S Reply
  exec statement p = replied p (srv.exec statement p.server)
