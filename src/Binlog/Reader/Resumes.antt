-- ===== src/Binlog/Reader/Resumes.antt =====
-- vendors/mysql/cdc/event_stream.go: a change says where to resume, which is where its transaction
-- begins.

use gpool.Base.{◌∙◌, ℕ, ◌≡◌, refl, inl, inr, List, [], ◌∷◌, Option, none, some, Bytes}
use gpool.Binlog.Position.{Texts, Position, gtid_at, file_at, encode}
use gpool.Binlog.Filter.{Folding}
use gpool.Binlog.Reader.{Round, Tracker, Reader, observe, observed, commit, run, new_reader}
use gpool.Binlog.Reader.Steps.{Grown, Standing, read_round-Committed}
use gpool.Binlog.Reader.Transactions.{
  LogTransaction, rounds_of, last_gtid, last_file, NoCommits, IsTransaction, Identified,
  AllTransactions, place_after, Reports,
}
use gpool.Binlog.Reader.Following.{
  Holds, Follows, Grown-trans, run-Holds, run-append, run-Quiet, new_tracker-Follows, commit-gtid,
  commit-file, observed-closing,
}

module _ {V G : Type 0} (fold : Folding) (x : Texts G) where
  -- What the tracker holds after a transaction, besides the place.
  abbrev also_after : LogTransaction V → Position G → Bytes → Bytes
  also_after tx (gtid_at set) also = last_file tx.events also
  also_after tx (file_at name pos) also = last_gtid tx.events also

  -- What a run over some rounds does, from one place to resume to another.
  abbrev Spans : Bytes → Bytes → (Tracker G → Type 0) → List (Round V) → Reader V G → Type 0
  Spans p p' Q rounds s = Grown p s (run fold x rounds s) × Standing p' Q (run fold x rounds s)

  -- The events of a transaction, and then what ends it.
  closed-Spans :
      (p p' : Bytes) (set : Option G) (next name : Bytes) (Q : Tracker G → Type 0)
      (tx : LogTransaction V) (s : Reader V G)
      → IsTransaction fold tx
      → ((t : Tracker G)
          → Holds set (last_gtid tx.events next) (last_file tx.events name) t
          → t.file_pos ≡ tx.closing.log_pos
          → ((commit x t).1 ≡ p') × Q (commit x t).0)
      → Standing p (Holds set next name) s
      → Spans p p' Q (rounds_of tx) s
  unfolding run observe
  closed-Spans p p' set next name Q tx s h step k =
      let r : Round V = tx.closing in
      let one = run-Holds fold x p set next name tx.events s h.goes_on k in
      let last =
        read_round-Committed fold x p p'
          (Holds set (last_gtid tx.events next) (last_file tx.events name)) Q r
          (run fold x tx.events s) h.closes
          (λ t q.
            let o = observed-closing fold r.body r.log_pos t h.closes h.ends in
            step (observed r.body r.log_pos t) (o.0 ∙ q.0, o.1 ∙ q.1, o.2 ∙ q.2) o.3)
          one.1 in
      rw (run-append fold x tx.events (r ∷ []) s) (Grown-trans fold x p s _ _ one.0 last.0, last.1)

  transaction-Spans :
      (place : Position G) (also : Bytes) (tx : LogTransaction V) (s : Reader V G)
      → IsTransaction fold tx
      → Identified place tx
      → Standing (encode x place) (Follows place also) s
      → Spans
          (encode x place)
          (encode x (place_after fold x tx place))
          (Follows (place_after fold x tx place) (also_after tx place also))
          (rounds_of tx)
          s
  transaction-Spans (gtid_at set) also tx s h i k =
      closed-Spans _ _ (some set) [] also
        (Follows (place_after fold x tx (gtid_at set)) (also_after tx (gtid_at set) also)) tx s h
        (λ t q e. commit-gtid x set (last_gtid tx.events []) (last_file tx.events also) t q i) k
  transaction-Spans (file_at name pos) also tx s h i k =
      closed-Spans _ _ none also name
        (Follows (place_after fold x tx (file_at name pos)) (also_after tx (file_at name pos) also))
        tx s h
        (λ t q e.
          commit-file x (last_gtid tx.events also) (last_file tx.events name) tx.closing.log_pos t q
            e)
        k

  weakened :
      (p : Bytes) (P : Tracker G → Type 0) (s : Reader V G)
      → Standing p P s
      → Standing p (λ t. Unit {0}) s
  weakened p P s (inl e) = inl e
  weakened p P s (inr (e, q)) = inr (e, tt)

  log-Reports :
      (place : Position G) (also : Bytes) (txs : List (LogTransaction V)) (rest : List (Round V))
      (s : Reader V G)
      → AllTransactions fold x place txs
      → NoCommits fold rest
      → Standing (encode x place) (Follows place also) s
      → Reports fold x place txs rest s
  log-Reports place also [] rest s h q k =
      let g = run-Quiet fold x (encode x place) rest s q (weakened _ (Follows place also) s k) in
      (g.fresh, g.grown, g.at)
  log-Reports place also (tx ∷ txs) rest s h q k =
      let one = transaction-Spans place also tx s h.0 h.1 k in
      let g = one.0 in
      (
        (g.fresh, g.grown, g.at),
        log-Reports (place_after fold x tx place) (also_after tx place also) txs rest _ h.2 q one.1,
      )

  -- Every change says where its transaction begins. A new reader reads transactions, each of events
  -- that do not end one and of one that does, and then events of which none ends one. What reading
  -- the first transaction adds to the delivered changes has the place where the stream started, and
  -- what a later one adds, or what comes last, has the place after the transaction before: the set
  -- with the GTID that was named last in it, by MySQL or by MariaDB, if the start was a set, or else
  -- where it ends in the file that was named last. So it is however many changes the consumer takes.
  -- A transaction ends at a position above zero, and names a GTID if the start was a set.
  pub run-Reports :
      (start : Position G) (room : ℕ) (txs : List (LogTransaction V)) (rest : List (Round V))
      → AllTransactions fold x start txs
      → NoCommits fold rest
      → Reports fold x start txs rest (new_reader x start room)
  unfolding new_reader
  run-Reports start room txs rest h q =
      log-Reports start [] txs rest (new_reader x start room) h q
        (inr (refl, new_tracker-Follows x start))
