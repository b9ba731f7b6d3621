-- ===== src/SignedMut/Jcs.antt =====
-- internal/signedmut/jcs.go, with `normalize` of envelope.go: the canonical text of a JSON value.
-- Go's decoder leaves only valid UTF-8 in a decoded string, so `validateUTF8` does not fail there.
use obacht_agent.Base.{
  ℕ, zero, suc, ◌+◌, ◌-◌, ◌/◌, ◌%◌, ◌^◌, Bool, true, false, ◌||◌, List, [], ◌∷◌, ◌++◌, ltb, ◌==◌,
  nat_eq, list_eq, if◌then◌else◌,
}
use obacht_agent.Base.Int.{ℤ, pos, negsuc, pos_part, neg_part}
use obacht_agent.Base.Result.{Result, ok, err, ◌>>=◌}
use obacht_agent.Base.Text.{Text, text}
use obacht_agent.SignedMut.Json.{
  Json, null, bool, int, other_number, str, arr, obj, Items, nil, cons, Members, end, member,
}

pub data JcsError : Type 0 where
  non_integer unsafe_integer : JcsError

-- `Number.MAX_SAFE_INTEGER`
abbrev pub max_safe_integer : ℕ
max_safe_integer = 2 ^ 53 - 1

-- `strconv.FormatInt`; an `int64` has at most 19 digits
unfoldable pub decimal : ℕ → ℕ → Text
decimal zero n = []
decimal (suc fuel) n =
    let rest = decimal fuel (n / 10) in
    if ltb n 10 then (48 + n) ∷ [] else rest ++ (48 + n % 10) ∷ []

unfoldable pub format_int : ℤ → Text
unfolding decimal
format_int (pos n) = decimal 20 n
format_int (negsuc n) = b'-' ∷ decimal 20 (suc n)

-- `utf16.Encode`
abbrev pub utf16 : Text → List ℕ
utf16 [] = []
utf16 (c ∷ s) =
    let rest = utf16 s in
    if ltb c 0x10000
    then c ∷ rest
    else (0xd800 + (c - 0x10000) / 1024) ∷ (0xdc00 + (c - 0x10000) % 1024) ∷ rest

abbrev pub units_lt : List ℕ → List ℕ → Bool
units_lt a [] = false
units_lt [] (y ∷ b) = true
units_lt (x ∷ a) (y ∷ b) = let rest = units_lt a b in if x == y then rest else ltb x y

-- The order of `sortUTF16`.
unfoldable pub key_lt : Text → Text → Bool
key_lt a b = units_lt (utf16 a) (utf16 b)

abbrev pub hex_digit : ℕ → ℕ
hex_digit n = if ltb n 10 then 48 + n else 87 + n

abbrev pub escape : ℕ → Text
escape c =
    if c == 0x22 || c == 0x5c
    then 0x5c ∷ c ∷ []
    else if c == 8
    then text "\\b"
    else if c == 9
    then text "\\t"
    else if c == 10
    then text "\\n"
    else if c == 12
    then text "\\f"
    else if c == 13
    then text "\\r"
    else if ltb c 0x20
    then text "\\u00" ++ (hex_digit (c / 16) ∷ hex_digit (c % 16) ∷ [])
    else c ∷ []

abbrev pub escape_all : Text → Text
escape_all [] = []
escape_all (c ∷ s) = escape c ++ escape_all s

-- `writeJCSString`
unfoldable pub quote : Text → Text
quote s = 0x22 ∷ (escape_all s ++ 0x22 ∷ [])

abbrev pub comma_join : List Text → Text
comma_join [] = []
comma_join (x ∷ []) = x
comma_join (x ∷ y ∷ xs) = x ++ (b',' ∷ comma_join (y ∷ xs))

abbrev pub Entry : Type 0
Entry = Text × Result JcsError Text

-- A member joins the members behind it, which are sorted: of two with one key, Go's map keeps the
-- later one.
unfoldable pub insert_entry : Text → Result JcsError Text → List Entry → List Entry
insert_entry k r [] = (k, r) ∷ []
insert_entry k r ((j, q) ∷ es) =
    let later = insert_entry k r es in
    if k == j then (j, q) ∷ es else if key_lt k j then (k, r) ∷ (j, q) ∷ es else (j, q) ∷ later

unfoldable pub write_entries : List Entry → Result JcsError (List Text)
write_entries [] = ok []
write_entries ((k, r) ∷ es) = do v ← r; rest ← write_entries es; ok ((quote k ++ (b':' ∷ v)) ∷ rest)

unfoldable pub write_int : ℤ → Result JcsError Text
write_int n =
    if ltb max_safe_integer (pos_part n) || ltb max_safe_integer (neg_part n)
    then err unsafe_integer
    else ok (format_int n)

unfoldable mutual
  pub canonicalize : Json → Result JcsError Text
  canonicalize null = ok (text "null")
  canonicalize (bool true) = ok (text "true")
  canonicalize (bool false) = ok (text "false")
  canonicalize (int n) = write_int n
  canonicalize (other_number s) = err non_integer
  canonicalize (str s) = ok (quote s)
  canonicalize (arr xs) = canonical_items xs >>= λ vs. ok (b'[' ∷ (comma_join vs ++ b']' ∷ []))
  canonicalize (obj ms) =
      write_entries (canonical_members ms) >>= λ vs. ok (b'{' ∷ (comma_join vs ++ b'}' ∷ []))

  pub canonical_items : Items → Result JcsError (List Text)
  canonical_items nil = ok []
  canonical_items (cons x xs) = canonicalize x >>= λ v. canonical_items xs >>= λ vs. ok (v ∷ vs)

  pub canonical_members : Members → List Entry
  canonical_members end = []
  canonical_members (member k v ms) = insert_entry k (canonicalize v) (canonical_members ms)
