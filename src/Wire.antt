-- ===== src/Wire.antt =====
-- How the message classes of src/Messages.cpp move bytes: `memcpy` into a buffer through a pointer
-- that is then advanced, `memcpy` out of one, and the byte order functions of the host.
pub mod Laws
pub mod Hosts
use cs.Base.{
  ℕ, ◌+◌, ◌-◌, ◌%◌, ◌≤◌, ◌<◌, ◌≡◌, Option, none, some, List, [], ◌∷◌, ◌++◌, length, leb, take, drop,
  if◌then◌else◌, ◌==◌,
}
use cs.Base.Int.{ℤ, pos, negsuc}
use cs.Base.Word.{to_u32, of_u32, u32_mod, network_bytes}

-- What the machine and <arpa/inet.h> give: the bytes of a 32-bit object in memory, the object of
-- four bytes, and the two conversions.
pub record Host : Type 0 where
  pub to_bytes : ℕ → List ℕ
  pub from_bytes : List ℕ → ℕ
  pub htonl : ℕ → ℕ
  pub ntohl : ℕ → ℕ

-- The documented behaviour: an object is read back from its four bytes, and `htonl` gives the word
-- whose bytes in memory are those of its argument in network order, which `ntohl` undoes.
pub record IsHost (h : Host) : Type 0 where
  pub size : (w : ℕ) → length (h.to_bytes w) ≡ 4
  pub object : (w : ℕ) → w < u32_mod → h.from_bytes (h.to_bytes w) ≡ w
  pub to_network : (w : ℕ) → w < u32_mod → h.to_bytes (h.htonl w) ≡ network_bytes w
  pub from_network : (w : ℕ) → w < u32_mod → h.ntohl (h.from_bytes (network_bytes w)) ≡ w

-- A buffer that is being filled: the bytes in front of the pointer, and how many fit behind it.
pub record Out : Type 0 where
  pub written : List ℕ
  pub room : ℕ

-- `none` is a write behind the end of the buffer.
abbrev pub Writer : Type 0
Writer = Out → Option Out

-- memcpy(buffer, bytes, n); buffer += n;
unfoldable pub store : List ℕ → Out → Option Out
store bytes o =
    if leb (length bytes) o.room
    then some (record { written = o.written ++ bytes; room = o.room - length bytes })
    else none

abbrev pub go_on : Option Out → Writer → Option Out
go_on none g = none
go_on (some o) g = g o

infixr 5 ◌>>◌
unfoldable pub ◌>>◌ : Writer → Writer → Writer
◌>>◌ f g o = go_on (f o) g

-- The bytes in front of the pointer once a writer has run over an empty buffer of that size.
unfoldable pub run_writer : Writer → ℕ → Option (List ℕ)
run_writer f size = elim (f (record { written = []; room = size })) [
  | none ↦ none
  | some o ↦ some o.written
]

-- int net = htonl(x); memcpy(buffer, &net, sizeof(net));
unfoldable pub put_int : Host → ℤ → Writer
put_int h x = store (h.to_bytes (h.htonl (to_u32 x)))

-- memcpy(buffer, &x, sizeof(x)), with no conversion.
unfoldable pub put_host_int : Host → ℤ → Writer
put_host_int h x = store (h.to_bytes (to_u32 x))

-- uint32_t n = …; memcpy(buffer, &n, sizeof(n)), with no conversion.
unfoldable pub put_host_word : Host → ℕ → Writer
put_host_word h n = store (h.to_bytes (n % u32_mod))

-- A read takes bytes from the memory behind the pointer; `none` is a read behind its end.
abbrev pub Reader : Type 0 → Type 0
Reader A = List ℕ → Option (A × List ℕ)

abbrev pub pure : {A : Type 0} → A → Reader A
pure a bs = some (a, bs)

abbrev pub read_on : {A B : Type 0} → Option (A × List ℕ) → (A → Reader B) → Option (B × List ℕ)
read_on none f = none
read_on (some (a, rest)) f = f a rest

infixl 5 ◌>>=◌
unfoldable pub ◌>>=◌ : {A B : Type 0} → Reader A → (A → Reader B) → Reader B
◌>>=◌ m f bs = read_on (m bs) f

-- memcpy(p, buffer, n); buffer += n;
unfoldable pub load : ℕ → Reader (List ℕ)
load n bs = if leb n (length bs) then some (take n bs, drop n bs) else none

-- memcpy(&net, buffer, sizeof(net)); x = ntohl(net);
unfoldable pub get_int : Host → Reader ℤ
get_int h = load 4 >>= λ bytes. pure (of_u32 (h.ntohl (h.from_bytes bytes)))

-- The same for a `uint32_t`.
unfoldable pub get_word : Host → Reader ℕ
get_word h = load 4 >>= λ bytes. pure (h.ntohl (h.from_bytes bytes))

-- memcpy(&x, buffer, sizeof(x)), with no conversion.
unfoldable pub get_host_int : Host → Reader ℤ
get_host_int h = load 4 >>= λ bytes. pure (of_u32 (h.from_bytes bytes))

-- uint32_t n; memcpy(&n, buffer, sizeof(n))
unfoldable pub get_host_word : Host → Reader ℕ
get_host_word h = load 4 >>= λ bytes. pure (h.from_bytes bytes)

-- A callee that reads through its own copy of the pointer: the caller's pointer stays.
unfoldable pub peek : {A : Type 0} → Reader A → Reader A
peek m bs = read_on (m bs) (λ a _. some (a, bs))

-- buffer += n;
unfoldable pub skip : ℕ → Reader (Unit {0})
skip n bs = some (tt, drop n bs)

-- std::string(p): the characters before the first NUL.
unfoldable pub c_string : List ℕ → List ℕ
c_string [] = []
c_string (c ∷ cs) = if c == 0 then [] else c ∷ c_string cs

unfoldable pub get_text : ℕ → Reader (List ℕ)
get_text n = load n >>= λ bytes. pure (c_string bytes)

-- p = new char[length + 1]; memcpy(p, buffer, length); p[length] = 0; std::string(p)
-- A negative length asks `memcpy` for more bytes than any buffer holds.
unfoldable pub get_chars : ℤ → Reader (List ℕ)
get_chars (pos n) = get_text n
get_chars (negsuc n) = λ _. none

-- A row of `int`s in network order, and what comes behind it.
unfoldable pub ints_then : List ℤ → List ℕ → List ℕ
ints_then [] tail = tail
ints_then (x ∷ xs) tail = network_bytes (to_u32 x) ++ ints_then xs tail

unfoldable pub ints_bytes : List ℤ → List ℕ
unfolding ints_then
ints_bytes xs = ints_then xs []
