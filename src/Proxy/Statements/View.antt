-- ===== src/Proxy/Statements/View.antt =====
-- examples/gpoolproxy/statements.go: a set of statements as a function from names to messages.
use gpool.Base.{
  ℕ, ◌≡◌, ◌≢◌, refl, sym, ap, ◌∙◌, inl, inr, true, false, [], ◌∷◌, Option, none, some,
  if◌then◌else◌, if_both, Bytes, same_bytes, same_bytes_refl, same_bytes→eq, get, put, del,
  Bool-cases, Option-cases,
}
use gpool.Proxy.Statements.Recency.{Has, evict-Since}
use gpool.Proxy.Statements.{
  Statement, Statements, Held, make_room, remember, forget, lookup, evict, next_use,
}

abbrev pub View : Type 0
View = Bytes → Option Bytes

abbrev message_in : Option Statement → Option Bytes
message_in none = none
message_in (some held) = some held.message

abbrev pub view : Statements → View
view s name = message_in (get same_bytes s.by_name name)

-- The view with one name changed.
abbrev pub upd : Bytes → Bytes → View → View
upd name message v j = if same_bytes name j then some message else v j

abbrev pub clear : Bytes → View → View
clear name v j = if same_bytes name j then none else v j

abbrev pub clear_if : Option Bytes → View → View
clear_if none v = v
clear_if (some name) v = clear name v

pub same_bytes_apart :
    (a j k : Bytes) → same_bytes a j ≡ true → same_bytes a k ≡ false → same_bytes k j ≡ false
same_bytes_apart a j k f e = elim (Bool-cases (same_bytes k j)) [
  | inr g ↦ g
  | inl g ↦
      let same : a ≡ k = same_bytes→eq a j f ∙ sym (same_bytes→eq k j g) in
      let twice : same_bytes a k ≡ true = rw same (same_bytes_refl k) in cc
]

get-put_if :
    (m : Held) (k j : Bytes) (x : Statement)
    → get same_bytes (put same_bytes m k x) j
      ≡ (if same_bytes k j then some x else get same_bytes m j)
get-put_if [] k j x = refl
get-put_if ((a, w) ∷ m) k j x = elim (Bool-cases (same_bytes a k)) [
  | inl e ↦
      let q : a ≡ k = same_bytes→eq a k e in
      rw (e, q) (elim (Bool-cases (same_bytes k j)) [ inl f ↦ rw f refl | inr f ↦ rw f refl ])
  | inr e ↦ rw e (elim (Bool-cases (same_bytes a j)) [
    | inl f ↦ rw (f, same_bytes_apart a j k f e) refl
    | inr f ↦ rw f (get-put_if m k j x)
  ])
]

get-del_if :
    (m : Held) (k j : Bytes)
    → get same_bytes (del same_bytes m k) j ≡ (if same_bytes k j then none else get same_bytes m j)
get-del_if [] k j = elim (Bool-cases (same_bytes k j)) [ inl f ↦ rw f refl | inr f ↦ rw f refl ]
get-del_if ((a, w) ∷ m) k j = elim (Bool-cases (same_bytes a k)) [
  | inl e ↦
      let q : a ≡ k = same_bytes→eq a k e in
      rw (e, q)
        (get-del_if m k j
          ∙ elim (Bool-cases (same_bytes k j)) [ inl f ↦ rw f refl | inr f ↦ rw f refl ])
  | inr e ↦ rw e (elim (Bool-cases (same_bytes a j)) [
    | inl f ↦ rw (f, same_bytes_apart a j k f e) refl
    | inr f ↦ rw f (get-del_if m k j)
  ])
]

pub view-forget :
    (name : Bytes) (s : Statements) (j : Bytes) → view (forget name s) j ≡ clear name (view s) j
unfolding forget
view-forget name s j =
    ap message_in (get-del_if s.by_name name j)
    ∙ elim (Bool-cases (same_bytes name j)) [ inl f ↦ rw f refl | inr f ↦ rw f refl ]

view-put :
    (m : Held) (name j : Bytes) (x : Statement)
    → message_in (get same_bytes (put same_bytes m name x) j)
      ≡ upd name x.message (λ (i : Bytes). message_in (get same_bytes m i)) j
view-put m name j x =
    ap message_in (get-put_if m name j x)
    ∙ elim (Bool-cases (same_bytes name j)) [ inl f ↦ rw f refl | inr f ↦ rw f refl ]

-- A lookup finds what the view shows, and changes the view nowhere.
pub lookup-view : (name : Bytes) (s : Statements) → (lookup name s).1 ≡ view s name
unfolding lookup
lookup-view name s = elim (Option-cases (get same_bytes s.by_name name)) [
  | inl n ↦ rw (n, lookup) refl
  | inr (held, e) ↦ rw (e, lookup) refl
]

pub view-lookup : (name : Bytes) (s : Statements) (j : Bytes) → view (lookup name s).0 j ≡ view s j
unfolding lookup
view-lookup name s j = elim (Option-cases (get same_bytes s.by_name name)) [
  | inl n ↦ rw (n, lookup) refl
  | inr (held, e) ↦
      rw (e, lookup)
        (view-put s.by_name name j _ ∙ elim (Bool-cases (same_bytes name j)) [
          | inl f ↦ let q : name ≡ j = same_bytes→eq name j f in rw (f, sym q, e) refl
          | inr f ↦ rw f refl
        ])
]

Has-get : (m : Held) (k : Bytes) (u : ℕ) → Has k u m → get same_bytes m k ≢ none
Has-get [] k u h = elim h [ ]
Has-get ((a, w) ∷ m) k u (inl (e, _)) = rw (e, same_bytes_refl k) (λ q. cc)
Has-get ((a, w) ∷ m) k u (inr h) = elim (Bool-cases (same_bytes a k)) [
  | inl f ↦ rw f (λ q. cc)
  | inr f ↦ rw f (Has-get m k u h)
]

-- Another name than this one.
abbrev pub Apart : Bytes → Option Bytes → Type 0
Apart name none = Unit {0}
Apart name (some other) = same_bytes name other ≡ false

-- Making room clears what was discarded, which is a name that was held.
make_room-view :
    (s : Statements) (name : Bytes)
    → get same_bytes s.by_name name ≡ none
    → ((j : Bytes)
        → message_in (get same_bytes (make_room s).0 j) ≡ clear_if (make_room s).1 (view s) j)
      × Apart name (make_room s).1
unfolding make_room
make_room-view s name n =
    if_both
      (λ (r : Held × Option Bytes).
        ((j : Bytes) → message_in (get same_bytes r.0 j) ≡ clear_if r.1 (view s) j)
        × Apart name r.1)
      _ (evict s.by_name) (s.by_name, none)
      (λ _. elim (evict-Since s.by_name) [
        | inl (q, e) ↦ rw e (λ j. rw q refl, tt)
        | inr (old, u, e, has, _) ↦ rw e (
          λ j.
              ap message_in (get-del_if s.by_name old j)
              ∙ elim (Bool-cases (same_bytes old j)) [ inl f ↦ rw f refl | inr f ↦ rw f refl ],
          elim (Bool-cases (same_bytes name old)) [
            | inr f ↦ f
            | inl f ↦ absurd (Has-get s.by_name old u has (rw (← same_bytes→eq name old f) n))
          ],
        )
      ])
      (λ _. (λ j. refl, tt))

-- What is remembered shows under its name; what was discarded for it, another name, shows no more;
-- every other name shows what it did. Nothing is discarded for a name that is held already.
pub remember-view :
    (b : ℕ) (bs message : Bytes) (s : Statements)
    → let name : Bytes = b ∷ bs in
      let r : Statements × Option Bytes = remember name message s in
      ((j : Bytes) → view r.0 j ≡ upd name message (clear_if r.1 (view s)) j)
      × Apart name r.1
      × ((m : Bytes) → view s name ≡ some m → r.1 ≡ none)
unfolding remember
remember-view b bs message s =
    let name : Bytes = b ∷ bs in
    let entry : Statement = record { message = message; used = next_use s } in
    elim (Option-cases (get same_bytes s.by_name name)) [
      | inr (held, e) ↦ rw (e, remember) (λ j. view-put s.by_name name j entry, tt, λ m f. refl)
      | inl n ↦
          let (shows, apart) = make_room-view s name n in
          rw (n, remember)
            (
              λ j. view-put (make_room s).0 name j entry ∙ elim (Bool-cases (same_bytes name j)) [
                | inl f ↦ rw f refl
                | inr f ↦ rw f (shows j)
              ],
              apart,
              λ m (f : message_in none ≡ some m). cc,
            )
    ]
