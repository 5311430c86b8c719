-- ===== src/Proxy/Session/Replay.antt =====
-- examples/gpoolproxy/session.go: what the proxy believes of a backend's prepared statements is what
-- the server holds, and a statement is there when a message that names it arrives.
use mathlib.Core.List.{append-nil, append_assoc}
use gpool.Base.{
  ℕ, ◌≡◌, inl, inr, refl, sym, ap, subst, ◌∙◌, List, [], ◌∷◌, ◌++◌, map, Option, none, some, arith,
  Bytes, Option-cases,
}
use gpool.Proxy.Wire.{close_statement}
use gpool.Proxy.Statements.{Statements, remember}
use gpool.Proxy.Statements.View.{View, upd, clear}
use gpool.Proxy.Relay.{ok, Sink, write}
use gpool.Proxy.Relay.Chunks.{Result-cases}
use gpool.Proxy.Session.{Link, Step, ◌>>◌, inject, hold, msg_parse_complete, msg_close_complete}

-- What a message does to the statements of a server connection.
pub data Effect : Type 0 where
  parsed : Bytes → Bytes → Effect
  closed : Bytes → Effect

abbrev pub wire_of : Effect → Bytes
wire_of (parsed name message) = message
wire_of (closed name) = close_statement name

abbrev pub completion_of : Effect → ℕ
completion_of (parsed name message) = msg_parse_complete
completion_of (closed name) = msg_close_complete

-- What a server connection holds after some messages that it performs. One that it answers with an
-- error is not described.
abbrev pub run : View → List Effect → View
run v [] = v
run v (parsed name message ∷ es) = run (upd name message v) es
run v (closed name ∷ es) = run (clear name v) es

-- Every Parse comes under a name that is free, so that none is refused for its name.
abbrev pub Accepted : View → List Effect → Type 0
Accepted v [] = Unit {0}
Accepted v (parsed name message ∷ es) = (v name ≡ none) × Accepted (upd name message v) es
Accepted v (closed name ∷ es) = Accepted (clear name v) es

-- The messages that were injected between two links, and what is owed for them.
pub record Injected (es : List Effect) (l l' : Link) : Type 0 where
  pub wrote : l'.target.writer.writes ≡ l.target.writer.writes ++ map wire_of es
  pub owes : l'.expect ≡ l.expect ++ map completion_of es

pub Injected-none : (l : Link) → Injected [] l l
Injected-none l = record {
  wrote = sym (append-nil l.target.writer.writes);
  owes = sym (append-nil l.expect);
}

map-append_effects {ℓ} :
    {A : Type ℓ} (f : Effect → A) (es fs : List Effect) → map f (es ++ fs) ≡ map f es ++ map f fs
map-append_effects f [] fs = refl
map-append_effects f (e ∷ es) fs = ap (λ r. f e ∷ r) (map-append_effects f es fs)

pub Injected-then :
    (es fs : List Effect) (k l m : Link)
    → Injected es k l
    → Injected fs l m
    → Injected (es ++ fs) k m
Injected-then es fs k l m p q = record {
  wrote =
      q.wrote
      ∙ ap (λ r. r ++ map wire_of fs) p.wrote
      ∙ append_assoc k.target.writer.writes (map wire_of es) (map wire_of fs)
      ∙ ap (λ r. k.target.writer.writes ++ r) (sym (map-append_effects wire_of es fs));
  owes =
      q.owes
      ∙ ap (λ r. r ++ map completion_of fs) p.owes
      ∙ append_assoc k.expect (map completion_of es) (map completion_of fs)
      ∙ ap (λ r. k.expect ++ r) (sym (map-append_effects completion_of es fs));
}

-- A sequence succeeds as its parts do.
pub >>_ok :
    (m n : Step) (l : Link)
    → ((m >> n) l).1 ≡ ok tt
    → ((m l).1 ≡ ok tt) × ((n (m l).0).1 ≡ ok tt) × (((m >> n) l).0 ≡ (n (m l).0).0)
>>_ok m n l h = ground arith

-- What an injection leaves alone.
pub record Alone (l l' : Link) : Type 0 where
  pub statements : l'.statements ≡ l.statements
  pub prepared : l'.target.prepared ≡ l.target.prepared

write_ok :
    (bs : Bytes) (dst sink : Sink) → write bs dst ≡ ok sink → sink.writes ≡ dst.writes ++ bs ∷ []
unfolding write
write_ok bs dst sink h = ground arith

pub inject-Injected :
    (e : Effect) (l : Link)
    → (inject (wire_of e) (completion_of e) l).1 ≡ ok tt
    → let l' : Link = (inject (wire_of e) (completion_of e) l).0 in
      Injected (e ∷ []) l l' × Alone l l'
unfolding inject
inject-Injected e l h = elim (Result-cases (write (wire_of e) l.target.writer)) [
  | inl (x, f) ↦ absurd (ground (arith, f, h))
  | inr (sink, f) ↦
      rw (f, inject)
        (
          record { wrote = write_ok (wire_of e) l.target.writer sink f; owes = refl },
          record { statements = refl; prepared = refl },
        )
]

-- The Close of what was discarded.
abbrev pub closing : Option Bytes → List Effect
closing none = []
closing (some old) = closed old ∷ []

pub hold-Injected :
    (name message : Bytes) (l : Link)
    → (hold name message l).1 ≡ ok tt
    → let l' : Link = (hold name message l).0 in
      let r : Statements × Option Bytes = remember name message l.target.prepared in
      Injected (closing r.1) l l' × (l'.target.prepared ≡ r.0) × (l'.statements ≡ l.statements)
unfolding hold
hold-Injected name message l h =
    let r : Statements × Option Bytes = remember name message l.target.prepared in
    let l' : Link = record l { target = record (l.target) { prepared = r.0 } } in
    elim (Option-cases r.1) [
      | inl n ↦
          rw (n, hold)
            (record { wrote = (Injected-none l).wrote; owes = (Injected-none l).owes }, refl, refl)
      | inr (old, f) ↦
          let sent : (inject (close_statement old) msg_close_complete l').1 ≡ ok tt =
            ground (arith, f, h) in
          let (i, alone) = inject-Injected (closed old) l' sent in
          rw (f, hold) (record { wrote = i.wrote; owes = i.owes }, alone.prepared, alone.statements)
    ]

-- A Parse that is replayed, and the Close of what had to go for it.
pub replay-Injected :
    (name message : Bytes) (l : Link)
    → let m : Step = inject message msg_parse_complete >> hold name message in
      let r : Statements × Option Bytes = remember name message l.target.prepared in
      (m l).1 ≡ ok tt
      → Injected (parsed name message ∷ closing r.1) l (m l).0
        × ((m l).0.target.prepared ≡ r.0)
        × ((m l).0.statements ≡ l.statements)
replay-Injected name message l h =
    let (a, b, e) = >>_ok (inject message msg_parse_complete) (hold name message) l h in
    let (i, alone) = inject-Injected (parsed name message) l a in
    let k : Link = (inject message msg_parse_complete l).0 in
    let (j, p, s) = hold-Injected name message k b in
    let r : Statements × Option Bytes = remember name message k.target.prepared in
    let all =
      Injected-then (parsed name message ∷ []) (closing r.1) l k (hold name message k).0 i j in
    let l' : Link = (hold name message k).0 in
    rw e (
      subst
        (λ (set : Statements).
          Injected (parsed name message ∷ closing (remember name message set).1) l l'
          × (l'.target.prepared ≡ (remember name message set).0)
          × (l'.statements ≡ l.statements))
        alone.prepared (all, p, s ∙ alone.statements))
