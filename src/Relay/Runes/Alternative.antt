-- ===== src/Relay/Runes/Alternative.antt =====
-- nostream-share/src/utils/runes/alternative.ts: one condition on one field, as text and back.
use nostr_mesh.Prelude.{
  ℕ, Bool, true, false, not, ◌&&◌, ◌||◌, Option, none, some, [], ◌∷◌, ◌++◌, leb, ◌==◌,
  if◌then◌else◌, any,
}
use nostr_mesh.Prelude.Text.{Str, codes, is_space}
use nostr_mesh.Prelude.Result.{Result, ok, err, ◌>>=◌, ◌>>◌, throw_if}

pub data RuneError : Type 0 where
  invalid_field : RuneError
  invalid_cond : RuneError
  no_operator : Str → RuneError
  no_alternatives : RuneError
  type_error : RuneError
  -- No error of the source: a loop that has not come to its end.
  unfinished : RuneError

-- The class `punctuations`, in which `+-.` is a range.
unfoldable pub is_punctuation : ℕ → Bool
is_punctuation c =
    (leb 33 c && leb c 47)
    || (leb 58 c && leb c 64)
    || (leb 91 c && leb c 94)
    || c == 96
    || (leb 123 c && leb c 126)

-- The operators that the constructor takes.
unfoldable pub is_cond : ℕ → Bool
is_cond c =
    c == b'!'
    || c == b'='
    || c == b'/'
    || c == b'^'
    || c == b'$'
    || c == b'~'
    || c == b'<'
    || c == b'>'
    || c == b'}'
    || c == b'{'
    || c == b'#'

pub record Alternative : Type 0 where
  pub field : Str
  pub cond : ℕ
  pub value : Str

-- The constructor.
unfoldable pub new_alternative : Str → ℕ → Str → Result RuneError Alternative
new_alternative field cond value =
    throw_if (any is_punctuation field) invalid_field
    >> throw_if (not (is_cond cond)) invalid_cond
    >> ok (record { field = field; cond = cond; value = value })

-- `[\\|&]`.
unfoldable pub is_special : ℕ → Bool
is_special c = c == b'\\' || c == b'|' || c == b'&'

-- `value.replace(/[\\|&]/g, '\\$&')`.
unfoldable pub escape : Str → Str
escape [] = []
escape (c ∷ cs) = if is_special c then b'\\' ∷ c ∷ escape cs else c ∷ escape cs

unfoldable pub encode : Alternative → Str
encode a = a.field ++ (a.cond ∷ escape a.value)

abbrev pub onto : ℕ → Option (Str × ℕ × Str) → Option (Str × ℕ × Str)
onto c none = none
onto c (some (field, cond, rest)) = some (c ∷ field, cond, rest)

-- The text before the first punctuation, that punctuation, and the text after it.
unfoldable pub split_operator : Str → Option (Str × ℕ × Str)
unfolding is_punctuation
split_operator [] = none
split_operator (c ∷ cs) =
    let more = onto c (split_operator cs) in if is_punctuation c then some ([], c, cs) else more

-- The second loop of `decode`: the value and the text after it. The flag says that a backslash came
-- before; past the end of the text stands `undefined`.
unfoldable pub read_value : Bool → Str → Str × Str
read_value true [] = (codes "undefined", [])
read_value false [] = ([], [])
read_value true (c ∷ cs) = let (value, rest) = read_value false cs in (c ∷ value, rest)
read_value false (c ∷ cs) =
    let (value, rest) = read_value (c == b'\\') cs in
    if c == b'|'
    then ([], cs)
    else if c == b'&'
    then ([], c ∷ cs)
    else if c == b'\\'
    then (value, rest)
    else (c ∷ value, rest)

abbrev pub and_rest : Str → Alternative → Result RuneError (Alternative × Str)
and_rest rest a = ok (a, rest)

abbrev pub decode_split : Str → Option (Str × ℕ × Str) → Result RuneError (Alternative × Str)
decode_split text none = err (no_operator text)
decode_split text (some (field, cond, after)) =
    let (value, rest) = read_value false after in new_alternative field cond value >>= and_rest rest

-- `Alternative.decode`.
unfoldable pub decode : Str → Result RuneError (Alternative × Str)
unfolding split_operator
decode text = decode_split text (split_operator text)

-- `replace(/\s+/g, '')`.
unfoldable pub remove_space : Str → Str
remove_space [] = []
remove_space (c ∷ cs) = if is_space c then remove_space cs else c ∷ remove_space cs

abbrev before_operator : Str → Option (Str × ℕ × Str) → Str
before_operator text none = text
before_operator text (some (field, cond, rest)) = field

abbrev from_split : Option (Str × ℕ × Str) → Str → Result RuneError Alternative
from_split none text = throw_if (any is_punctuation text) invalid_field >> err invalid_cond
from_split (some (field, cond, rest)) text =
    new_alternative field cond (before_operator rest (split_operator rest))

-- `Alternative.from`: what comes after a second operator is dropped.
unfoldable pub alternative_from : Str → Result RuneError Alternative
alternative_from text = from_split (split_operator (remove_space text)) (remove_space text)
