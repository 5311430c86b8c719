-- ===== src/Proxy/Users/Loaded.antt =====
-- examples/gpoolproxy/userlist.go: a file of stored secrets is loaded as it was written.
use gpool.Base.{
  ◌≡◌, refl, ap, ◌∙◌, inl, inr, false, List, [], ◌∷◌, ◌++◌, Option, none, some, arith,
  if◌then◌else◌, pos, lt_int, Bytes, Bool-cases, same_bytes, same_bytes→eq, same_bytes_refl, get,
  put,
}
use gpool.Proxy.Scram.{cut_prefix, colon, verifier_prefix, Verifier, Crypto, string}
use gpool.Proxy.Scram.Stored.{
  Lacks, cut-append, cut_prefix-append, CryptoLaws, parse_verifier-string,
}
use gpool.Proxy.Users.{
  Userlist, lookup, is_empty, is_comment, parse_secret, parse_line, load_lines, load_userlist,
}

get-put_any :
    (users : Userlist) (a : Bytes) (v : Verifier) (n : Bytes)
    → get same_bytes (put same_bytes users a v) n
      ≡ (if same_bytes a n then some v else get same_bytes users n)
get-put_any [] a v n = refl
get-put_any ((b, w) ∷ users) a v n = elim (Bool-cases (same_bytes b a)) [
  | inl e ↦ rw e (let q = same_bytes→eq b a e in ground (arith, q))
  | inr e ↦ rw e (
      let rest = get-put_any users a v n in let q = same_bytes→eq a n in ground (arith, rest, q, e))
]

module _ (c : Crypto) (derive_verifier : Bytes → Option Verifier) (trim_space : Bytes → Bytes) where
  abbrev pub line_of : Bytes × Verifier → Bytes
  line_of (name, v) = name ++ colon ∷ string c v

  abbrev pub lines_of : Userlist → List Bytes
  lines_of [] = []
  lines_of (entry ∷ entries) = line_of entry ∷ lines_of entries

  -- A name that a line can carry, and a secret that a line can.
  abbrev pub IsEntry : Bytes × Verifier → Type 0
  IsEntry (name, v) =
      Lacks colon name
      × (is_comment name ≡ false)
      × (lt_int v.iterations (pos 1) ≡ false)
      × (trim_space (line_of (name, v)) ≡ line_of (name, v))

  abbrev pub AllEntries : Userlist → Type 0
  AllEntries [] = Unit {0}
  AllEntries (entry ∷ entries) = IsEntry entry × AllEntries entries

  -- The secret on the last line of a name.
  abbrev pub last_secret : Userlist → Option Verifier → Bytes → Option Verifier
  last_secret [] v name = v
  last_secret ((a, w) ∷ entries) v name =
      last_secret entries (if same_bytes a name then some w else v) name

  string-prefix :
      (v : Verifier)
      → (is_empty (string c v) ≡ false)
        × ((rest : Bytes) × (cut_prefix (string c v) verifier_prefix ≡ some rest))
  unfolding string
  string-prefix v = (refl, (_, cut_prefix-append verifier_prefix _))

  parse_secret-string :
      CryptoLaws c
      → (v : Verifier) → lt_int v.iterations (pos 1) ≡ false
      → parse_secret c derive_verifier trim_space (string c v) ≡ some v
  unfolding parse_secret
  parse_secret-string laws v h =
      rw ((string-prefix v).1.1, parse_secret) (parse_verifier-string c laws v h)

  parse_line-entry :
      CryptoLaws c
      → (users : Userlist) (name : Bytes) (v : Verifier) → IsEntry (name, v)
      → parse_line c derive_verifier trim_space users (line_of (name, v))
        ≡ some (put same_bytes users name v)
  unfolding parse_line
  parse_line-entry laws users [] v (l, m, h, t) = ground (arith, m)
  parse_line-entry laws users (b ∷ name) v (l, m, h, t) =
      rw
        (
          cut-append colon (b ∷ name) (string c v) l,
          (string-prefix v).0,
          parse_secret-string laws v h,
        )
        refl

  is_comment-line :
      (name : Bytes) (v : Verifier)
      → is_comment name ≡ false
      → is_comment (line_of (name, v)) ≡ false
  is_comment-line [] v h = ground (arith, h)
  is_comment-line (b ∷ name) v h = h

  load_lines-get :
      CryptoLaws c
      → (entries users : Userlist) → AllEntries entries
      → (loaded : Userlist) × (load_lines c derive_verifier trim_space (lines_of entries) users
          ≡ some loaded)
        × ((name : Bytes)
            → get same_bytes loaded name ≡ last_secret entries (get same_bytes users name) name)
  unfolding load_lines
  load_lines-get laws [] users all = (users, refl, (λ name. refl))
  load_lines-get laws ((a, v) ∷ entries) users ((l, m, h, t), all) =
      let (loaded, loads, finds) = load_lines-get laws entries (put same_bytes users a v) all in
      (
        loaded,
        rw (t, is_comment-line a v m, parse_line-entry laws users a v (l, m, h, t)) loads,
        (λ name. finds name ∙ ap (λ o. last_secret entries o name) (get-put_any users a v name)),
      )

  is_empty-get :
      (users : Userlist) (name : Bytes) {v : Verifier}
      → get same_bytes users name ≡ some v
      → is_empty users ≡ false
  is_empty-get [] name h = ground (arith, h)
  is_empty-get (x ∷ users) name h = refl

  last_secret-kept :
      (entries : Userlist) (v : Verifier) (name : Bytes)
      → (w : Verifier) × (last_secret entries (some v) name ≡ some w)
  last_secret-kept [] v name = (v, refl)
  last_secret-kept ((a, u) ∷ entries) v name = elim (Bool-cases (same_bytes a name)) [
    | inl e ↦ rw e (last_secret-kept entries u name)
    | inr e ↦ rw e (last_secret-kept entries v name)
  ]

  -- A file that lists stored secrets, one line for each user, is loaded: a name has the secret on
  -- its last line, and a name on no line has none. There is a line, no name is empty, has a colon or
  -- begins as a comment, each number of iterations is positive, and no line has blanks to trim.
  pub load_userlist-lookup :
      CryptoLaws c
      → (entry : Bytes × Verifier) (entries : Userlist) → AllEntries (entry ∷ entries)
      → (users : Userlist) × (load_userlist c derive_verifier trim_space
            (lines_of (entry ∷ entries))
          ≡ some users)
        × ((name : Bytes) → lookup users name ≡ last_secret (entry ∷ entries) none name)
  unfolding load_userlist lookup
  load_userlist-lookup laws (a, v) entries all =
      let (loaded, loads, finds) = load_lines-get laws ((a, v) ∷ entries) [] all in
      let (w, kept) = last_secret-kept entries v a in
      let found : get same_bytes loaded a ≡ some w = finds a ∙ (rw (same_bytes_refl a) kept) in
      (loaded, rw (loads, is_empty-get loaded a found) refl, finds)
