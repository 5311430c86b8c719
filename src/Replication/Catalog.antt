-- ===== src/Replication/Catalog.antt =====
-- pkg/vendors/postgres/cdc/identifier.go: names of tables, as SQL and as sets.
--
-- A Go map used as a set is a list of its keys. A nil slice and an empty one are both [].
pub mod Quoting
pub mod Tables
use gpool.Base.{
  ℕ, ◌≡◌, Bool, true, false, not, ◌||◌, List, [], ◌∷◌, ◌++◌, Option, none, some, map, ◌==◌,
  if◌then◌else◌, Bytes, same_bytes,
}

-- The characters " and ' and the dot.
abbrev pub double_quote : ℕ
double_quote = 34

abbrev pub single_quote : ℕ
single_quote = 39

abbrev pub dot : ℕ
dot = 46

-- ReplaceAll of a character by two of it.
unfoldable pub double_all : ℕ → Bytes → Bytes
double_all q [] = []
double_all q (b ∷ bs) = if b == q then q ∷ q ∷ double_all q bs else b ∷ double_all q bs

unfoldable pub quote_identifier : Bytes → Bytes
quote_identifier s = double_quote ∷ (double_all double_quote s ++ double_quote ∷ [])

unfoldable pub quote_literal : Bytes → Bytes
quote_literal s = single_quote ∷ (double_all single_quote s ++ single_quote ∷ [])

-- strings.Cut at the first dot.
unfoldable pub cut_dot : Bytes → Option (Bytes × Bytes)
cut_dot [] = none
cut_dot (b ∷ bs) =
    let cut = cut_dot bs in
    if b == dot
    then some ([], bs)
    else elim cut [ none ↦ none | some (before, after) ↦ some (b ∷ before, after) ]

abbrev named : Bytes → Option (Bytes × Bytes) → Bytes × Bytes
named s none = ([], s)
named s (some ([], after)) = ([], s)
named s (some (b ∷ before, [])) = ([], s)
named s (some (b ∷ before, a ∷ after)) = (b ∷ before, a ∷ after)

unfoldable pub split_qualified_name : Bytes → Bytes × Bytes
split_qualified_name s = named s (cut_dot s)

abbrev quote_parts : Bytes × Bytes → Bytes
quote_parts ([], table) = quote_identifier table
quote_parts (b ∷ schema, table) = quote_identifier (b ∷ schema) ++ dot ∷ quote_identifier table

unfoldable pub quote_qualified_name : Bytes → Bytes
quote_qualified_name s = quote_parts (split_qualified_name s)

-- strings.Join with a comma and a space.
unfoldable pub join : List Bytes → Bytes
join [] = []
join (s ∷ []) = s
join (s ∷ t ∷ ss) = s ++ 44 ∷ 32 ∷ join (t ∷ ss)

unfoldable pub quote_qualified_names : List Bytes → Bytes
quote_qualified_names tables = join (map quote_qualified_name tables)

abbrev pub has : List Bytes → Bytes → Bool
has [] v = false
has (x ∷ xs) v = same_bytes x v || has xs v

abbrev pub is_empty : Bytes → Bool
is_empty [] = true
is_empty (b ∷ bs) = false

-- The loop of `dedupe`, with the set of what it has seen.
unfoldable pub dedupe_from : List Bytes → List Bytes → List Bytes
dedupe_from seen [] = []
dedupe_from seen (v ∷ vs) =
    let skipped = dedupe_from seen vs in
    let kept = dedupe_from (v ∷ seen) vs in
    if is_empty v then skipped else if has seen v then skipped else v ∷ kept

unfoldable pub dedupe : List Bytes → List Bytes
dedupe values = dedupe_from [] values

unfoldable pub difference : List Bytes → List Bytes → List Bytes
difference [] other = []
difference (v ∷ vs) other = let rest = difference vs other in if has other v then rest else v ∷ rest

unfoldable pub intersection : List Bytes → List Bytes → List Bytes
intersection [] other = []
intersection (v ∷ vs) other =
    let rest = intersection vs other in if has other v then v ∷ rest else rest
