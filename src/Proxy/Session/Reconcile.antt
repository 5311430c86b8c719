-- ===== src/Proxy/Session/Reconcile.antt =====
-- examples/gpoolproxy/session.go: reconcile as a whole, for every message of a client.
use gpool.Base.{
  ℕ, ◌≡◌, ◌⊎◌, inl, inr, refl, sym, ap, subst, ◌∙◌, true, ◌||◌, List, [], ◌∷◌, Option, none, some,
  arith, ◌==◌, if◌then◌else◌, Bytes, Bool-cases, Option-cases, same_bytes, same_bytes_refl,
}
use gpool.Proxy.Wire.{
  msg_parse, msg_bind, msg_describe, msg_close, parse_name, statement_name_of, close_statement,
}
use gpool.Proxy.Statements.{Statements, remember, lookup}
use gpool.Proxy.Statements.Bounds.{lookup-remember}
use gpool.Proxy.Statements.View.{
  View, view, upd, clear, clear_if, lookup-view, view-lookup, view-forget, remember-view,
}
use gpool.Proxy.Relay.{ok, drop, header_size}
use gpool.Proxy.Session.{
  Link, Step, inject, hold, touch, ensure_prepared, reconcile_parse, forget_both, for_name,
  reconcile, free_name, keep, msg_close_complete,
}
use gpool.Proxy.Session.Replay.{
  Effect, parsed, closed, run, Injected, Injected-none, >>_ok, inject-Injected, hold-Injected,
  closing,
}
use gpool.Proxy.Session.Agreement.{
  Agrees, AgreesBut, Reconciled, Ready, upd_but, clear_if_cong, run-closing, Accepted-closing,
  idle_step, closed_first, reseat, ensure_prepared-Reconciled,
}

clear_if-free : (o : Option Bytes) (v : View) (j : Bytes) → v j ≡ none → clear_if o v j ≡ none
clear_if-free none v j e = e
clear_if-free (some old) v j e = elim (Bool-cases (same_bytes old j)) [
  | inl f ↦ rw f refl
  | inr f ↦ rw f e
]

-- A statement is recorded ahead of its Parse, under a name that is free on the server.
kept :
    (b : ℕ) (bs message : Bytes) (v : View) (l : Link)
    → let name : Bytes = b ∷ bs in
      AgreesBut name l v
      → v name ≡ none
      → (hold name message l).1 ≡ ok tt
      → Reconciled (parsed name message ∷ []) v l (hold name message l).0
kept b bs message v l but free h =
    let name : Bytes = b ∷ bs in
    let w : View = view l.target.prepared in
    let o : Option Bytes = (remember name message l.target.prepared).1 in
    let (i, p, s) = hold-Injected name message l h in
    let (shows, _, _) = remember-view b bs message l.target.prepared in
    let ran : run v (closing o) ≡ clear_if o v = run-closing o v in
    record {
      injected = closing o;
      sent = i;
      accepted = Accepted-closing o v;
      accepted_own = (ap (λ (t : View). t name) ran ∙ clear_if-free o v name free, tt);
      agrees = λ j.
          ap (λ (t : Statements). view t j) p
          ∙ shows j
          ∙ upd_but name message (clear_if o w) (clear_if o v) j
              (λ e. clear_if_cong o w v j (but j e))
          ∙ ap (λ (t : View). upd name message t j) (sym ran);
    }

keep-Reconciled :
    (b : ℕ) (bs message : Bytes) (v : View) (l : Link)
    → let name : Bytes = b ∷ bs in
      AgreesBut name l v
      → v name ≡ none
      → (keep name message l).1 ≡ ok tt
      → Reconciled (parsed name message ∷ []) v l (keep name message l).0
unfolding keep
keep-Reconciled b bs message v l but free h =
    let name : Bytes = b ∷ bs in
    let st : Statements = (lookup name (remember name message l.statements).0).0 in
    let k : Link = record l { statements = st } in
    let found = lookup-remember b bs message l.statements in
    let sent : (hold name message k).1 ≡ ok tt = ground (arith, found, h) in
    let r = kept b bs message v k but free sent in
    rw (found, keep)
      (record {
        injected = r.injected;
        sent = record { wrote = r.sent.wrote; owes = r.sent.owes };
        accepted = r.accepted;
        accepted_own = r.accepted_own;
        agrees = r.agrees;
      })

-- What freeing a name leaves: nothing injected where it was free, or a Close.
free_name-cases :
    (name : Bytes) (v : View) (l : Link)
    → Agrees l v
    → (free_name name l).1 ≡ ok tt
    → ((v name ≡ none) × ((free_name name l).0 ≡ touch name l))
      ⊎ (Injected (closed name ∷ []) l (free_name name l).0
          × AgreesBut name (free_name name l).0 (clear name v))
unfolding free_name
free_name-cases name v l a h =
    let holds = lookup-view name l.target.prepared in
    elim (Option-cases (lookup name l.target.prepared).1) [
      | inl n ↦ rw (n, free_name) (inl (sym (a name) ∙ sym holds ∙ n, refl))
      | inr (held, there) ↦
          let sent : (inject (close_statement name) msg_close_complete (touch name l)).1 ≡ ok tt =
            ground (arith, there, h) in
          let (i, alone) = inject-Injected (closed name) (touch name l) sent in
          rw (there, free_name)
            (inr (
              record { wrote = i.wrote; owes = i.owes },
              λ j apart.
                  ap (λ (t : Statements). view t j) alone.prepared
                  ∙ view-lookup name l.target.prepared j
                  ∙ a j
                  ∙ (rw apart refl),
            ))
    ]

reconcile_parse-Reconciled :
    (b : ℕ) (bs message : Bytes) (v : View) (l : Link)
    → let name : Bytes = b ∷ bs in
      Agrees l v
      → (reconcile_parse name message l).1 ≡ ok tt
      → Reconciled (parsed name message ∷ []) v l (reconcile_parse name message l).0
unfolding reconcile_parse
reconcile_parse-Reconciled b bs message v l a h =
    let name : Bytes = b ∷ bs in
    let own : List Effect = parsed name message ∷ [] in
    let (c, d, e) = >>_ok (free_name name) (keep name message) l h in
    let k : Link = (free_name name l).0 in
    rw (e, reconcile_parse)
      (elim (free_name-cases name v l a c) [
        | inl (free, q) ↦
            let but : AgreesBut name k v = λ j _.
              ap (λ (t : Link). view t.target.prepared j) q
              ∙ view-lookup name l.target.prepared j
              ∙ a j in
            let r = keep-Reconciled b bs message v k but free d in
            reseat own v name l.statements l _
              (subst (λ (t : Link). Reconciled own v t (keep name message k).0) q r)
        | inr (i, but) ↦
            closed_first own name v l k _ i
              (keep-Reconciled b bs message (clear name v) k but (rw (same_bytes_refl name) refl) d)
      ])

-- What a message that names no statement does, or the unnamed one, is of no account.
abbrev effect_of : Option Bytes → (Bytes → Effect) → List Effect
effect_of none f = []
effect_of (some []) f = []
effect_of (some (b ∷ bs)) f = f (b ∷ bs) ∷ []

-- What a client's own message does to the named statements of the server.
abbrev pub own_effects : ℕ → Bytes → List Effect
own_effects kind message =
    if kind == msg_parse
    then effect_of (parse_name (drop header_size message)) (λ name. parsed name message)
    else if kind == msg_close
    then effect_of (statement_name_of kind (drop header_size message)) closed
    else []

-- A Bind or a Describe finds what its client knows.
abbrev pub Served : ℕ → Bytes → Link → Link → Type 0
Served kind message l l' =
    (b : ℕ) (bs m : Bytes)
    → (kind ≡ msg_bind) ⊎ (kind ≡ msg_describe)
    → statement_name_of kind (drop header_size message) ≡ some (b ∷ bs)
    → view l.statements (b ∷ bs) ≡ some m
    → view l'.target.prepared (b ∷ bs) ≡ some m

abbrev Fine : ℕ → Bytes → View → Link → Link → Type 0
Fine kind message v l l' = Reconciled (own_effects kind message) v l l' × Served kind message l l'

unchanged : (v : View) (l : Link) → Agrees l v → Reconciled [] v l l
unchanged v l a = idle_step v l l (Injected-none l) a

forget_both-Reconciled :
    (name : Bytes) (v : View) (l : Link)
    → Agrees l v
    → Reconciled (closed name ∷ []) v l (forget_both name l).0
unfolding forget_both
forget_both-Reconciled name v l a = record {
  injected = [];
  sent = record { wrote = (Injected-none l).wrote; owes = (Injected-none l).owes };
  accepted = tt;
  accepted_own = tt;
  agrees = λ j.
      view-forget name l.target.prepared j
      ∙ elim (Bool-cases (same_bytes name j)) [ inl e ↦ rw e refl | inr e ↦ rw e (a j) ];
}

parse_case :
    (found : Option Bytes) (message : Bytes) (v : View) (l : Link)
    → let m : Step = for_name found (λ name. reconcile_parse name message) in
      Agrees l v
      → (m l).1 ≡ ok tt
      → Reconciled (effect_of found (λ name. parsed name message)) v l (m l).0
parse_case none message v l a h = unchanged v l a
parse_case (some []) message v l a h = unchanged v l a
parse_case (some (b ∷ bs)) message v l a h = reconcile_parse-Reconciled b bs message v l a h

close_case :
    (found : Option Bytes) (v : View) (l : Link)
    → Agrees l v
    → Reconciled (effect_of found closed) v l (for_name found forget_both l).0
close_case none v l a = unchanged v l a
close_case (some []) v l a = unchanged v l a
close_case (some (b ∷ bs)) v l a = forget_both-Reconciled (b ∷ bs) v l a

bind_case :
    (found : Option Bytes) (v : View) (l : Link)
    → Agrees l v
    → (for_name found ensure_prepared l).1 ≡ ok tt
    → let l' : Link = (for_name found ensure_prepared l).0 in
      Reconciled [] v l l' × ((b : ℕ) (bs : Bytes) → found ≡ some (b ∷ bs) → Ready (b ∷ bs) l l')
bind_case none v l a h = (unchanged v l a, λ b bs e. cc)
bind_case (some []) v l a h = (unchanged v l a, λ b bs e. cc)
bind_case (some (b ∷ bs)) v l a h =
    let (r, ready) = ensure_prepared-Reconciled b bs v l a h in
    let l' : Link = (ensure_prepared (b ∷ bs) l).0 in
    (
      r,
      λ c cs e.
          let same : (b ∷ bs) ≡ (c ∷ cs) = cc in
          subst (λ (name : Bytes). Ready name l l') same ready,
    )

-- A record that agrees with the server goes on agreeing, where the server performs what it is sent:
-- it prepares a Parse under a free name and closes what a Close names. A Parse that it refuses for
-- another reason, a syntax error or a failed transaction, is left out. Under that condition, for
-- every message of a client and every state of the sets: if the step before the message succeeds,
-- then no Parse, injected or the client's, meets a name that is taken, and the completions owed for
-- what was injected are in its order. Once the message has been forwarded, the backend's record is
-- again what the server holds. A Bind or a Describe finds there the very statement that its client
-- prepared under the name.
pub reconcile-Reconciled :
    (kind : ℕ) (message : Bytes) (v : View) (l : Link)
    → Agrees l v
    → (reconcile kind message l).1 ≡ ok tt
    → let l' : Link = (reconcile kind message l).0 in
      Reconciled (own_effects kind message) v l l' × Served kind message l l'
unfolding reconcile
reconcile-Reconciled kind message v l a h =
    let body : Bytes = drop header_size message in
    let found : Option Bytes = statement_name_of kind body in
    elim (Bool-cases (kind == msg_parse)) [
      | inl p ↦
          let sent : (for_name (parse_name body) (λ name. reconcile_parse name message) l).1
              ≡ ok tt =
            ground (arith, p, h) in
          rw (p, reconcile)
            (
              parse_case (parse_name body) message v l a sent,
              λ b bs m k. absurd (ground (arith, p, k)),
            )
      | inr p ↦ elim (Bool-cases (kind == msg_close)) [
        | inl c ↦
            let d : (kind == msg_bind || (kind == msg_describe || kind == msg_close)) ≡ true =
              ground (arith, c) in
            rw (p, d, c, reconcile)
              (close_case found v l a, λ b bs m k. absurd (ground (arith, c, k)))
        | inr c ↦
            elim (Bool-cases (kind == msg_bind || (kind == msg_describe || kind == msg_close))) [
              | inl d ↦
                  let sent : (for_name found ensure_prepared l).1 ≡ ok tt =
                    ground (arith, p, d, c, h) in
                  let (r, ready) = bind_case found v l a sent in
                  rw (p, d, c, reconcile) (r, λ b bs m _ e. ready b bs e m)
              | inr d ↦
                  rw (p, d, c, reconcile)
                    (unchanged v l a, λ b bs m k. absurd (ground (arith, d, k)))
            ]
      ]
    ]
