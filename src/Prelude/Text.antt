-- ===== src/Prelude/Text.antt =====
-- What the code uses of Go's strings, strconv and net on text. A text is walked by its characters;
-- the characters looked for are ASCII, so this agrees with Go's walk over bytes.
pub mod Lines
use text.Mathlib.Text.{find?}
use Prim.Native.Nat.{ℕ, zero, suc, ◌+◌, ◌-◌, ◌*◌, ◌/◌, ◌%◌, ◌^◌}
use Prim.Native.Char.{code}
use Prim.Native.String.{String}
use mathlib.Core.Bool.{Bool, true, false, not, ◌&&◌, ◌||◌}
use mathlib.Core.Option.{Option, none, some}
use mathlib.Core.List.{List, [], ◌∷◌}
use emqx_operator.Prelude.Lists.{get_elem?}
use emqx_operator.Prelude.Tests.{ltb, leb, ◌==◌, if◌then◌else◌}
use emqx_operator.Prelude.Int.{ℤ, pos, negsuc}
use emqx_operator.Prelude.Go.{◌+++◌, ◌>>=◌}

-- strings.Contains, of a single character.
unfoldable pub contains : ℕ → String → Bool
contains b String.[] = false
contains b (String.◌∷◌ c s) = code c == b || contains b s

-- strings.Trim, of a single character.
trim_left : ℕ → String → String
trim_left b String.[] = String.[]
trim_left b (String.◌∷◌ c s) =
    let rest = trim_left b s in if code c == b then rest else String.◌∷◌ c s

abbrev is_empty : String → Bool
is_empty String.[] = true
is_empty (String.◌∷◌ c s) = false

trim_right : ℕ → String → String
trim_right b String.[] = String.[]
trim_right b (String.◌∷◌ c s) =
    let rest = trim_right b s in
    if is_empty rest && code c == b then String.[] else String.◌∷◌ c rest

unfoldable pub trim : ℕ → String → String
unfolding trim_left trim_right
trim b s = trim_right b (trim_left b s)

abbrev decimals : List String
decimals = "0" ∷ "1" ∷ "2" ∷ "3" ∷ "4" ∷ "5" ∷ "6" ∷ "7" ∷ "8" ∷ "9" ∷ []

abbrev digit : ℕ → String
digit n = elim (get_elem? decimals n) [ some d ↦ d | none ↦ "" ]

-- The digits of a decimal number, at most as many as the first argument says.
digits : ℕ → ℕ → String
digits zero n = ""
digits (suc fuel) n =
    let rest = digits fuel (n / 10) in if ltb n 10 then digit n else rest +++ digit (n % 10)

-- strconv.Itoa of an int32, which has ten digits at most.
unfoldable pub itoa : ℤ → String
unfolding digits
itoa (pos n) = digits 10 n
itoa (negsuc n) = "-" +++ digits 10 (n + 1)

-- strconv.ParseUint, the number beside any error: the largest uint64 out of range, 0 for what is no
-- number.
scan_digits : String → ℕ → ℕ
scan_digits String.[] n = n
scan_digits (String.◌∷◌ c s) n =
    let m = n * 10 + (code c - b'0') in
    let rest = scan_digits s m in
    if ltb (code c) b'0' || ltb b'9' (code c)
    then 0
    else if leb (2 ^ 64) m
    then 2 ^ 64 - 1
    else rest

abbrev at_most : ℕ → ℕ → ℕ
at_most bound n = if leb bound n then bound else n

abbrev minus : ℕ → ℤ
minus zero = pos 0
minus (suc n) = negsuc n

-- strconv.Atoi, the number beside any error.
unfoldable pub atoi : String → ℤ
unfolding scan_digits
atoi String.[] = pos 0
atoi (String.◌∷◌ c s) =
    if code c == b'-'
    then minus (at_most (2 ^ 63) (scan_digits s 0))
    else if code c == b'+'
    then pos (at_most (2 ^ 63 - 1) (scan_digits s 0))
    else pos (at_most (2 ^ 63 - 1) (scan_digits (String.◌∷◌ c s) 0))

-- The number whose bits in two's complement are the low 32 bits of a natural number.
abbrev pub signed : ℕ → ℤ
signed m = if ltb m (2 ^ 31) then pos m else negsuc (2 ^ 32 - 1 - m)

-- The conversions int32(x) and uint32(x) of an int.
abbrev pub unsigned : ℤ → ℕ
unsigned (pos n) = n % 2 ^ 32
unsigned (negsuc n) = 2 ^ 32 - 1 - n % 2 ^ 32

unfoldable pub to_int32 : ℤ → ℤ
to_int32 x = signed (unsigned x)

-- A text cut at its last colon.
cut_last_colon : String → Option (String × String)
cut_last_colon String.[] = none
cut_last_colon (String.◌∷◌ c s) = elim (cut_last_colon s) [
  | some (host, port) ↦ some (String.◌∷◌ c host, port)
  | none ↦ if code c == b':' then some (String.[], s) else none
]

ends_at_bracket : String → Bool
ends_at_bracket String.[] = false
ends_at_bracket (String.◌∷◌ c s) = if code c == b']' then is_empty s else ends_at_bracket s

-- The checks of net.SplitHostPort on the parts before and after the last colon.
is_host : String → String → Bool
unfolding contains ends_at_bracket
is_host String.[] port = not (contains b'[' port) && not (contains b']' port)
is_host (String.◌∷◌ c s) port =
    not (contains b'[' s)
    && not (contains b'[' port)
    && not (contains b']' port)
    && (if code c == b'['
        then ends_at_bracket s
        else not (contains b':' (String.◌∷◌ c s)) && not (contains b']' (String.◌∷◌ c s)))

-- The port of net.SplitHostPort; `none` is an error.
unfoldable pub split_port : String → Option String
unfolding cut_last_colon is_host
split_port hostport = elim (cut_last_colon hostport) [
  | none ↦ none
  | some (host, port) ↦ if is_host host port then some port else none
]

-- The port of net.SplitHostPort, empty beside an error.
unfoldable pub port_of : String → String
unfolding split_port
port_of hostport = elim (split_port hostport) [ none ↦ "" | some port ↦ port ]

abbrev letters : List String
letters =
    "a" ∷ "b" ∷ "c" ∷ "d" ∷ "e" ∷ "f" ∷ "g" ∷ "h" ∷ "i" ∷ "j" ∷ "k" ∷ "l" ∷ "m" ∷ "n" ∷ "o" ∷ "p"
    ∷ "q" ∷ "r" ∷ "s" ∷ "t" ∷ "u" ∷ "v" ∷ "w" ∷ "x" ∷ "y" ∷ "z" ∷ []

-- strings.ToLower of ASCII text.
unfoldable pub to_lower : String → String
to_lower String.[] = ""
to_lower (String.◌∷◌ c s) =
    let rest = to_lower s in
    if ltb (code c) b'A'
    then String.◌∷◌ c rest
    else elim (get_elem? letters (code c - b'A')) [ some l ↦ l +++ rest | none ↦ String.◌∷◌ c rest ]

-- strings.Contains
abbrev pub has_text : String → String → Bool
has_text s part = elim (find? s part) [ none ↦ false | some i ↦ true ]
