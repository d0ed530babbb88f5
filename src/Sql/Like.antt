-- ===== src/Sql/Like.antt =====
-- SQLite's LIKE with ESCAPE '\', and escapeLike of store/persons.go. A text here has no NUL.
use xensus.Base.{
  ℕ, ◌≡◌, refl, Bool, true, false, ◌&&◌, ◌||◌, List, [], ◌∷◌, ◌++◌, Text, lower_char, ◌==◌, arith,
  if◌then◌else◌,
}

-- What a character of a pattern stands for: `%`, `_`, itself, or, for an escape at the end, no text.
pub data Token : Type 0 where
  run one never : Token
  char : ℕ → Token

abbrev pub percent : ℕ
percent = b'%'

abbrev pub underscore : ℕ
underscore = b'_'

abbrev pub backslash : ℕ
backslash = b'\\'

-- The tokens of a pattern: the flag says that an escape came just before.
unfoldable pub tokens : Bool → Text → List Token
tokens true [] = never ∷ []
tokens false [] = []
tokens true (c ∷ s) = char c ∷ tokens false s
tokens false (c ∷ s) =
    let plain = tokens false s in
    let escaped = tokens true s in
    if c == percent
    then run ∷ plain
    else if c == underscore
    then one ∷ plain
    else if c == backslash
    then escaped
    else char c ∷ plain

-- Whether some end of a text passes a test.
unfoldable pub some_end : (Text → Bool) → Text → Bool
some_end test [] = test []
some_end test (c ∷ s) = test (c ∷ s) || some_end test s

-- The case of ASCII letters does not count.
abbrev pub same_char : ℕ → ℕ → Bool
same_char c d = lower_char c == lower_char d

unfoldable pub matches : List Token → Text → Bool
matches [] [] = true
matches [] (c ∷ s) = false
matches (run ∷ p) s = some_end (matches p) s
matches (one ∷ p) [] = false
matches (one ∷ p) (c ∷ s) = matches p s
matches (never ∷ p) s = false
matches (char d ∷ p) [] = false
matches (char d ∷ p) (c ∷ s) = same_char d c && matches p s

-- `escapeLike`
unfoldable pub escape_like : Text → Text
escape_like [] = []
escape_like (c ∷ s) =
    let rest = escape_like s in
    if c == backslash || c == percent || c == underscore then backslash ∷ c ∷ rest else c ∷ rest

-- `name LIKE '%' || ? || '%' ESCAPE '\'`, for the escaped query
unfoldable pub like_query : Text → Text → Bool
like_query query name =
    matches (tokens false (percent ∷ (escape_like query ++ (percent ∷ [])))) name

unfoldable pub begins : Text → Text → Bool
begins [] s = true
begins (d ∷ q) [] = false
begins (d ∷ q) (c ∷ s) = same_char d c && begins q s

-- Whether a text has another in it, the case of ASCII letters aside.
abbrev pub contains : Text → Text → Bool
contains query = some_end (begins query)

abbrev chars : Text → List Token
chars [] = []
chars (c ∷ s) = char c ∷ chars s

tokens-escape_like : (q t : Text) → tokens false (escape_like q ++ t) ≡ chars q ++ tokens false t
unfolding escape_like tokens
tokens-escape_like [] t = refl
tokens-escape_like (c ∷ q) t = ground (arith, tokens-escape_like q t)

some_end-run : (s : Text) → some_end (matches []) s ≡ true
unfolding some_end matches
some_end-run [] = refl
some_end-run (c ∷ s) = some_end-run s

some_end-ext :
    (f g : Text → Bool) (s : Text) → ((t : Text) → f t ≡ g t) → some_end f s ≡ some_end g s
unfolding some_end
some_end-ext f g [] same = same []
some_end-ext f g (c ∷ s) same = rw (same (c ∷ s), some_end-ext f g s same) refl

matches-chars : (q s : Text) → matches (chars q ++ (run ∷ [])) s ≡ begins q s
unfolding matches begins
matches-chars [] s = some_end-run s
matches-chars (d ∷ q) [] = refl
matches-chars (d ∷ q) (c ∷ s) = rw (matches-chars q s) refl

-- A search finds the names that have the query in them, the case of ASCII letters aside: no character
-- of the query is a wildcard.
pub like_query-contains : (query name : Text) → like_query query name ≡ contains query name
unfolding like_query tokens matches
like_query-contains query name =
    rw (tokens-escape_like query (percent ∷ []))
      (some_end-ext (matches (chars query ++ (run ∷ []))) (begins query) name (matches-chars query))
