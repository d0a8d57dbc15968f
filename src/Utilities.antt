-- ===== src/Utilities.antt =====
-- src/Utilities.cpp: the lines of a decision log, and the ids of commands. A file is the list of its
-- characters; integers and words go through the formatted streams of the standard library.
pub mod Decimal
pub mod Lines
pub mod Loading
use cs.Base.{
  ℕ, zero, suc, ◌+◌, ◌-◌, ◌*◌, ◌/◌, ◌%◌, ◌^◌, ◌≡◌, Bool, true, false, not, ◌&&◌, ◌||◌, Option, none,
  some, List, [], ◌∷◌, ◌++◌, if◌then◌else◌, ltb, leb, ◌==◌, length, drop,
}
use cs.Base.Int.{ℤ, pos, negsuc}
use cs.Base.Word.{to_u32, of_u32, u32_mod}
use cs.Map
use cs.Map.{Map}
use cs.Messages.Command
use cs.Messages.Command.{Command}
use cs.Wire.{Reader, pure, ◌>>=◌}

abbrev pub minus : ℕ
minus = b'-'

abbrev pub space : ℕ
space = b' '

abbrev pub newline : ℕ
newline = 10

abbrev pub zero_digit : ℕ
zero_digit = b'0'

-- The decimal digits of a number, on fuel: a number has fewer digits than its size.
unfoldable pub digits : ℕ → ℕ → List ℕ
digits zero n = []
digits (suc fuel) n =
    let front = digits fuel (n / 10) in
    if ltb n 10 then (zero_digit + n) ∷ [] else front ++ (zero_digit + n % 10) ∷ []

-- stream << n
unfoldable pub put_number : ℕ → List ℕ
unfolding digits
put_number n = digits (suc n) n

-- stream << x, for an `int`
unfoldable pub put_integer : ℤ → List ℕ
unfolding put_number
put_integer (pos n) = put_number n
put_integer (negsuc n) = minus ∷ put_number (suc n)

abbrev pub is_space : ℕ → Bool
is_space c = c == space || (leb 9 c && leb c 13)

abbrev pub is_digit : ℕ → Bool
is_digit c = leb zero_digit c && ltb c (zero_digit + 10)

unfoldable pub skip_spaces : List ℕ → List ℕ
skip_spaces [] = []
skip_spaces (c ∷ cs) = let rest = skip_spaces cs in if is_space c then rest else c ∷ cs

-- The number of the digits that come next, behind those that gave `acc`.
unfoldable pub read_digits : ℕ → List ℕ → ℕ × List ℕ
read_digits acc [] = (acc, [])
read_digits acc (c ∷ cs) =
    let more = read_digits (10 * acc + (c - zero_digit)) cs in
    if is_digit c then more else (acc, c ∷ cs)

-- A value below `bound` is stored; otherwise the stream fails.
abbrev pub in_bound : ℕ → (ℕ → ℤ) → ℕ × List ℕ → Option (ℤ × List ℕ)
in_bound bound sign (n, rest) = if ltb n bound then some (sign n, rest) else none

abbrev pub negate : ℕ → ℤ
negate zero = pos 0
negate (suc n) = negsuc n

-- An unsigned number, which has at least one digit.
unfoldable pub read_number : ℕ → (ℕ → ℤ) → Reader ℤ
unfolding read_digits
read_number bound sign [] = none
read_number bound sign (c ∷ cs) =
    if is_digit c then in_bound bound sign (read_digits 0 (c ∷ cs)) else none

unfoldable pub read_signed : Reader ℤ
unfolding read_number
read_signed [] = none
read_signed (c ∷ cs) =
    if c == minus
    then read_number (2 ^ 31 + 1) negate cs
    else if c == b'+'
    then read_number (2 ^ 31) pos cs
    else read_number (2 ^ 31) pos (c ∷ cs)

-- stream >> x, for an `int`
unfoldable pub read_integer : Reader ℤ
unfolding skip_spaces read_signed
read_integer text = read_signed (skip_spaces text)

-- The characters up to the next space.
unfoldable pub split_word : List ℕ → List ℕ × List ℕ
split_word [] = ([], [])
split_word (c ∷ cs) =
    let (word, rest) = split_word cs in if is_space c then ([], c ∷ cs) else (c ∷ word, rest)

abbrev pub some_word : List ℕ × List ℕ → Option (List ℕ × List ℕ)
some_word ([], rest) = none
some_word (c ∷ word, rest) = some (c ∷ word, rest)

-- stream >> s, for a string: a word that is not empty
unfoldable pub read_word : Reader (List ℕ)
unfolding skip_spaces split_word
read_word text = some_word (split_word (skip_spaces text))

-- The line of a command.
unfoldable pub line : ℤ → Command → List ℕ
unfolding put_integer
line key c =
    put_integer key
    ++ (space ∷ put_integer c.slot
        ++ (space ∷ put_integer c.command_id
            ++ (space ∷ c.client_ip
                ++ (space ∷ put_integer c.customer_id
                    ++ (space ∷ put_integer c.order_id ++ newline ∷ [])))))

unfoldable pub lines : Map Command → List ℕ
unfolding line
lines [] = []
lines ((key, c) ∷ m) = line key c ++ lines m

-- saveMapToFile: `opens` tells if the file can be opened, and `file` is what it holds.
unfoldable pub save_map_to_file : Bool → Map Command → List ℕ → List ℕ
unfolding lines
save_map_to_file opens decision_map file = if opens then lines decision_map else file

-- saveCommandToFile
unfoldable pub save_command_to_file : Bool → ℤ → Command → List ℕ → List ℕ
unfolding line
save_command_to_file opens slot c file = if opens then file ++ line slot c else file

-- The six reads of a line.
unfoldable pub read_entry : Reader (ℤ × Command)
unfolding read_integer read_word Command.of_fields
read_entry = do
  key ← read_integer
  slot ← read_integer
  command_id ← read_integer
  client_ip ← read_word
  customer_id ← read_integer
  order_id ← read_integer
  pure (key, Command.of_fields slot command_id client_ip customer_id order_id)

abbrev pub go_on :
    (Map Command → List ℕ → Option (Map Command))
    → Map Command
    → Option ((ℤ × Command) × List ℕ)
    → Option (Map Command)
go_on next m none = some m
go_on next m (some ((key, c), rest)) = next (Map.assign key c m) rest

-- The loop of loadMapFromFile, on fuel: it ends at the first line that cannot be read.
unfoldable pub load : ℕ → Map Command → List ℕ → Option (Map Command)
unfolding read_entry Map.assign
load zero m text = none
load (suc fuel) m text = go_on (load fuel) m (read_entry text)

-- loadMapFromFile. An entry takes at least a character, so that the fuel is enough.
unfoldable pub load_map_from_file : Bool → List ℕ → Option (Map Command)
unfolding load
load_map_from_file opens file = if opens then load (suc (length file)) [] file else some []

-- The last eight digits of the time, which stoi reads.
abbrev pub last_digits : List ℕ → List ℕ
last_digits text = if leb (length text) 8 then text else drop (length text - 8) text

-- generateCommandID, at a time in microseconds; the `int` arithmetic wraps around.
unfoldable pub generate_command_id : ℤ → ℕ → ℤ
unfolding put_number read_digits to_u32 of_u32
generate_command_id server_id microseconds = of_u32 (
    ((10 + to_u32 server_id) * 10000000 + (read_digits 0 (last_digits (put_number microseconds))).0)
    % u32_mod)
