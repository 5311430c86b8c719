-- ===== src/Proxy/Session/Agreement.antt =====
-- examples/gpoolproxy/session.go: reconcile keeps the proxy's record of a backend true.
use gpool.Base.{
  ℕ, ◌≡◌, inl, inr, refl, sym, ap, ◌∙◌, false, List, [], ◌∷◌, Option, none, some, arith, Bytes,
  Bool-cases, Option-cases, same_bytes, same_bytes_refl, same_bytes→eq,
}
use gpool.Proxy.Wire.{close_statement}
use gpool.Proxy.Statements.{Statements, remember, lookup}
use gpool.Proxy.Statements.View.{
  View, view, upd, clear, clear_if, Apart, lookup-view, view-lookup, remember-view,
  same_bytes_apart,
}
use gpool.Proxy.Relay.{ok}
use gpool.Proxy.Session.{
  Link, Step, ◌>>◌, inject, hold, touch, ensure_prepared, msg_parse_complete, msg_close_complete,
}
use gpool.Proxy.Session.Replay.{
  Effect, parsed, closed, run, Accepted, Injected, Injected-none, Injected-then, >>_ok,
  inject-Injected, replay-Injected, closing,
}

-- For every other name than this one.
abbrev pub AgreesBut : Bytes → Link → View → Type 0
AgreesBut name l v = (j : Bytes) → same_bytes name j ≡ false → view l.target.prepared j ≡ v j

-- What the proxy records of a backend is what the server holds.
abbrev pub Agrees : Link → View → Type 0
Agrees l v = (j : Bytes) → view l.target.prepared j ≡ v j

-- A step before a message with effects `own`: what it injected, that the server accepts all of it
-- and then the message, and that record and server agree once it has.
pub record Reconciled (own : List Effect) (v : View) (l l' : Link) : Type 0 where
  pub injected : List Effect
  pub sent : Injected injected l l'
  pub accepted : Accepted v injected
  pub accepted_own : Accepted (run v injected) own
  pub agrees : Agrees l' (run (run v injected) own)

module _ (name message : Bytes) where
  pub upd_but :
      (f g : View) (j : Bytes)
      → (same_bytes name j ≡ false → f j ≡ g j)
      → upd name message f j ≡ upd name message g j
  upd_but f g j h = elim (Bool-cases (same_bytes name j)) [ inl e ↦ rw e refl | inr e ↦ rw e (h e) ]

  upd-clear : (f : View) (j : Bytes) → upd name message (clear name f) j ≡ upd name message f j
  upd-clear f j = elim (Bool-cases (same_bytes name j)) [ inl e ↦ rw e refl | inr e ↦ rw e refl ]

  upd-clear_if :
      (o : Option Bytes) (f : View) (j : Bytes)
      → Apart name o
      → upd name message (clear_if o f) j ≡ clear_if o (upd name message f) j
  upd-clear_if none f j a = refl
  upd-clear_if (some old) f j a = elim (Bool-cases (same_bytes name j)) [
    | inr e ↦ rw e refl
    | inl e ↦ rw (e, same_bytes_apart name j old e a) refl
  ]

pub clear_if_cong :
    (o : Option Bytes) (f g : View) (j : Bytes) → f j ≡ g j → clear_if o f j ≡ clear_if o g j
clear_if_cong none f g j e = e
clear_if_cong (some old) f g j e = rw e refl

pub run-closing : (o : Option Bytes) (v : View) → run v (closing o) ≡ clear_if o v
run-closing none v = refl
run-closing (some old) v = refl

pub Accepted-closing : (o : Option Bytes) (v : View) → Accepted v (closing o)
Accepted-closing none v = tt
Accepted-closing (some old) v = tt

-- Nothing is injected, and the backend's record does not change.
pub idle_step : (v : View) (l l' : Link) → Injected [] l l' → Agrees l' v → Reconciled [] v l l'
idle_step v l l' i a = record {
  injected = [];
  sent = i;
  accepted = tt;
  accepted_own = tt;
  agrees = a;
}

-- The name was free, and a Parse is replayed, or the name was freed for it first.
replayed :
    (b : ℕ) (bs message : Bytes) (v : View) (l : Link)
    → let name : Bytes = b ∷ bs in
      let m : Step = inject message msg_parse_complete >> hold name message in
      AgreesBut name l v
      → v name ≡ none
      → (m l).1 ≡ ok tt
      → Reconciled [] v l (m l).0 × ((m l).0.statements ≡ l.statements)
replayed b bs message v l a free h =
    let name : Bytes = b ∷ bs in
    let m : Step = inject message msg_parse_complete >> hold name message in
    let r : Statements × Option Bytes = remember name message l.target.prepared in
    let w : View = view l.target.prepared in
    let (i, p, s) = replay-Injected name message l h in
    let (shows, apart, _) = remember-view b bs message l.target.prepared in
    (
      record {
        injected = parsed name message ∷ closing r.1;
        sent = i;
        accepted = (free, Accepted-closing r.1 (upd name message v));
        accepted_own = tt;
        agrees = λ j.
            ap (λ (t : Statements). view t j) p
            ∙ shows j
            ∙ upd_but name message (clear_if r.1 w) (clear_if r.1 v) j
                (λ e. clear_if_cong r.1 w v j (a j e))
            ∙ upd-clear_if name message r.1 v j apart
            ∙ ap (λ (t : View). t j) (sym (run-closing r.1 (upd name message v)));
      },
      s,
    )

-- A Close before the rest of a step: what the rest makes of the connection on which the name is
-- free.
pub closed_first :
    (own : List Effect) (name : Bytes) (v : View) (k l l' : Link)
    → Injected (closed name ∷ []) k l
    → Reconciled own (clear name v) l l'
    → Reconciled own v k l'
closed_first own name v k l l' i r = record {
  injected = closed name ∷ r.injected;
  sent = Injected-then (closed name ∷ []) r.injected k l l' i r.sent;
  accepted = r.accepted;
  accepted_own = r.accepted_own;
  agrees = r.agrees;
}

-- What is sent after a look at the sets is sent after it began.
pub reseat :
    (own : List Effect) (v : View) (name : Bytes) (st : Statements) (l l' : Link)
    → Reconciled own v (touch name (record l { statements = st })) l'
    → Reconciled own v l l'
reseat own v name st l l' r = record {
  injected = r.injected;
  sent = record { wrote = r.sent.wrote; owes = r.sent.owes };
  accepted = r.accepted;
  accepted_own = r.accepted_own;
  agrees = r.agrees;
}

-- The backend has the statement that the client knows under a name.
abbrev pub Ready : Bytes → Link → Link → Type 0
Ready name l l' =
    (m : Bytes) → view l.statements name ≡ some m → view l'.target.prepared name ≡ some m

replay_shows :
    (b : ℕ) (bs message : Bytes) (l : Link)
    → let name : Bytes = b ∷ bs in
      let m : Step = inject message msg_parse_complete >> hold name message in
      (m l).1 ≡ ok tt → view (m l).0.target.prepared name ≡ some message
replay_shows b bs message l h =
    let name : Bytes = b ∷ bs in
    let (_, p, _) = replay-Injected name message l h in
    let (shows, _, _) = remember-view b bs message l.target.prepared in
    ap (λ (t : Statements). view t name) p ∙ shows name ∙ (rw (same_bytes_refl name) refl)

-- The backend's set has another message under the name: a Close, then the Parse.
swapped :
    (b : ℕ) (bs message : Bytes) (v : View) (l : Link)
    → let name : Bytes = b ∷ bs in
      let replay : Step = inject message msg_parse_complete >> hold name message in
      let m : Step = inject (close_statement name) msg_close_complete >> replay in
      Agrees l v
      → (m l).1 ≡ ok tt
      → Reconciled [] v l (m l).0 × (view (m l).0.target.prepared name ≡ some message)
swapped b bs message v l a h =
    let name : Bytes = b ∷ bs in
    let close : Step = inject (close_statement name) msg_close_complete in
    let replay : Step = inject message msg_parse_complete >> hold name message in
    let (c, d, e) = >>_ok close replay l h in
    let k : Link = (close l).0 in
    let (i, alone) = inject-Injected (closed name) l c in
    let but : AgreesBut name k (clear name v) =
      λ j apart. ap (λ (t : Statements). view t j) alone.prepared ∙ a j ∙ (rw apart refl) in
    let r = replayed b bs message (clear name v) k but (rw (same_bytes_refl name) refl) d in
    rw e (closed_first [] name v l k (replay k).0 i r.0, replay_shows b bs message k d)

pub ensure_prepared-Reconciled :
    (b : ℕ) (bs : Bytes) (v : View) (l : Link)
    → let name : Bytes = b ∷ bs in
      let l' : Link = (ensure_prepared name l).0 in
      Agrees l v → (ensure_prepared name l).1 ≡ ok tt → Reconciled [] v l l' × Ready name l l'
unfolding ensure_prepared
ensure_prepared-Reconciled b bs v l a h =
    let name : Bytes = b ∷ bs in
    let st : Statements = (lookup name l.statements).0 in
    let k : Link = touch name (record l { statements = st }) in
    let agree : Agrees k v = λ j. view-lookup name l.target.prepared j ∙ a j in
    let knows = lookup-view name l.statements in
    let holds = lookup-view name l.target.prepared in
    elim (Option-cases (lookup name l.statements).1) [
      | inl n ↦
          rw (n, ensure_prepared)
            (
              idle_step v l _
                  (record { wrote = (Injected-none l).wrote; owes = (Injected-none l).owes }) a,
              λ m e. cc (sym knows ∙ n, e),
            )
      | inr (m, known) ↦
          let only = λ (m' : Bytes) (e : view l.statements name ≡ some m'). sym known ∙ knows ∙ e in
          elim (Option-cases (lookup name l.target.prepared).1) [
            | inl n ↦
                let free : v name ≡ none = sym (a name) ∙ sym holds ∙ n in
                let sent : ((inject m msg_parse_complete >> hold name m) k).1 ≡ ok tt =
                  ground (arith, known, n, h) in
                rw (known, n, ensure_prepared)
                  (
                    reseat [] v name st l _ (replayed b bs m v k (λ j _. agree j) free sent).0,
                    λ m' e. replay_shows b bs m k sent ∙ only m' e,
                  )
            | inr (held, there) ↦ elim (Bool-cases (same_bytes held m)) [
              | inl same ↦
                  rw (known, there, same, ensure_prepared)
                    (
                      reseat [] v name st l k (idle_step v k k (Injected-none k) agree),
                      λ m' e.
                          view-lookup name l.target.prepared name
                          ∙ sym holds
                          ∙ there
                          ∙ ap some (same_bytes→eq held m same)
                          ∙ only m' e,
                    )
              | inr other ↦
                  let sent : ((inject (close_statement name) msg_close_complete
                          >> (inject m msg_parse_complete >> hold name m))
                        k).1
                      ≡ ok tt =
                    ground (arith, known, there, other, h) in
                  let r = swapped b bs m v k agree sent in
                  rw (known, there, other, ensure_prepared)
                    (reseat [] v name st l _ r.0, λ m' e. r.1 ∙ only m' e)
            ]
          ]
    ]
