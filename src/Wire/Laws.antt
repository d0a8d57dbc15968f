-- ===== src/Wire/Laws.antt =====
-- Writers and readers, composed: a row of stores is one store, and a row of reads takes a row apart.
use cs.Base.{
  ℕ, ◌+◌, ◌≤◌, ◌<◌, ◌≡◌, ◌≢◌, refl, ap, fun_ext, Option, none, some, List, [], ◌∷◌, ◌++◌, length,
  arith, append_assoc, ◌*◌, ◌∙◌, length-append, le→leb, take-length_append, drop-length_append, All,
  Option, ◌%◌,
}
use cs.Base.Int.{ℤ, pos}
use cs.Base.Word.{
  IsInt, to_u32, of_u32, u32_mod, network_bytes, of_u32-to_u32, to_u32-lt, length-network_bytes,
}
use cs.Wire.{
  Host, IsHost, Out, store, ◌>>◌, run_writer, put_int, Reader, pure, ◌>>=◌, load, peek, skip,
  ints_then, ints_bytes, get_int, get_host_int, c_string, get_text, get_chars, get_host_word,
  get_word,
}

store-store_at : (a b : List ℕ) (o : Out) → (store a >> store b) o ≡ store (a ++ b) o
unfolding store ◌>>◌
store-store_at a b o = ground (arith, length-append a b, append_assoc o.written a b)

-- Two stores in a row are one: both succeed or the buffer is too small for the row.
pub store-store : (a b : List ℕ) → (store a >> store b) ≡ store (a ++ b)
unfolding store ◌>>◌
store-store a b = fun_ext (store-store_at a b)

pub run_writer-store :
    (bs : List ℕ) (size : ℕ) → length bs ≤ size → run_writer (store bs) size ≡ some bs
unfolding run_writer store
run_writer-store bs size h = ground arith

pub run_writer-store_small :
    (bs : List ℕ) (size : ℕ) → size < length bs → run_writer (store bs) size ≡ none
unfolding run_writer store
run_writer-store_small bs size h = ground arith

-- The reader takes exactly `bs`, whatever follows, and answers `a`.
abbrev pub Reads : {A : Type 0} → Reader A → List ℕ → A → Type 0
Reads r bs a = (rest : List ℕ) → r (bs ++ rest) ≡ some (a, rest)

pub Reads-pure : {A : Type 0} (a : A) → Reads (pure a) [] a
Reads-pure a rest = refl

pub Reads-bind :
    {A B : Type 0} (m : Reader A) (f : A → Reader B) (xs ys : List ℕ) (a : A) (b : B)
    → Reads m xs a
    → Reads (f a) ys b
    → Reads (m >>= f) (xs ++ ys) b
unfolding ◌>>=◌
Reads-bind m f xs ys a b hm hf rest = rw (append_assoc xs ys rest, hm (ys ++ rest)) (hf rest)

-- The last step of a chain answers, and takes nothing.
pub Reads-last :
    {A B : Type 0} (m : Reader A) (f : A → B) (xs : List ℕ) (a : A)
    → Reads m xs a
    → Reads (m >>= λ x. pure (f x)) xs (f a)
unfolding ◌>>=◌
Reads-last m f xs a hm rest = rw (hm rest)

pub load-Reads : (bs : List ℕ) → Reads (load (length bs)) bs bs
unfolding load
load-Reads bs rest = rw (
  le→leb (length bs) (length (bs ++ rest)) (omega (arith, length-append bs rest)),
  take-length_append bs rest,
  drop-length_append bs rest,
)

-- Text with no NUL in it.
abbrev pub IsText : List ℕ → Type 0
IsText = All (λ c. c ≢ 0)

pub c_string-IsText : (cs : List ℕ) → IsText cs → c_string cs ≡ cs
unfolding c_string
c_string-IsText [] h = refl
c_string-IsText (c ∷ cs) h = ground (arith, c_string-IsText cs h.1)

pub get_text-Reads : (cs : List ℕ) → IsText cs → Reads (get_text (length cs)) cs cs
unfolding get_text
get_text-Reads cs h rest =
    Reads-last (load (length cs)) c_string cs cs (load-Reads cs) rest
    ∙ ap (λ (t : List ℕ). some (t, rest)) (c_string-IsText cs h)

pub get_chars-Reads : (cs : List ℕ) → IsText cs → Reads (get_chars (pos (length cs))) cs cs
unfolding get_chars
get_chars-Reads cs h = get_text-Reads cs h

wrapped :
    (n : ℕ)
    → n < u32_mod
    → (rest : List ℕ) → ◌≡◌ {A = Option (ℕ × List ℕ)} (some (n % u32_mod, rest)) (some (n, rest))
wrapped n h rest = ap (λ (k : ℕ). some (k, rest)) (omega arith)

module _ (h : Host) (laws : IsHost h) where
  pub put_int-store : (x : ℤ) → put_int h x ≡ store (network_bytes (to_u32 x))
  unfolding put_int
  put_int-store x = ap store (laws.to_network (to_u32 x) (to_u32-lt x))

  load-4 : (bs : List ℕ) → length bs ≡ 4 → Reads (load 4) bs bs
  load-4 bs e = rw e at (load-Reads bs)

  pub get_int-Reads : (x : ℤ) → IsInt x → Reads (get_int h) (network_bytes (to_u32 x)) x
  unfolding get_int
  get_int-Reads x hx rest =
      Reads-last (load 4) (λ b. of_u32 (h.ntohl (h.from_bytes b))) _ _
        (load-4 (network_bytes (to_u32 x)) (length-network_bytes (to_u32 x))) rest
      ∙ rw (laws.from_network (to_u32 x) (to_u32-lt x), of_u32-to_u32 x hx)

  pub get_word-Reads : (n : ℕ) → n < u32_mod → Reads (get_word h) (network_bytes n) n
  unfolding get_word
  get_word-Reads n small rest =
      Reads-last (load 4) (λ b. h.ntohl (h.from_bytes b)) _ _
        (load-4 (network_bytes n) (length-network_bytes n)) rest
      ∙ rw (laws.from_network n small)

  pub get_host_int-Reads : (x : ℤ) → IsInt x → Reads (get_host_int h) (h.to_bytes (to_u32 x)) x
  unfolding get_host_int
  get_host_int-Reads x hx rest =
      Reads-last (load 4) (λ b. of_u32 (h.from_bytes b)) _ _
        (load-4 (h.to_bytes (to_u32 x)) (laws.size (to_u32 x))) rest
      ∙ rw (laws.object (to_u32 x) (to_u32-lt x), of_u32-to_u32 x hx)

  pub get_host_word-Reads :
      (n : ℕ) → n < u32_mod → Reads (get_host_word h) (h.to_bytes (n % u32_mod)) n
  unfolding get_host_word
  get_host_word-Reads n hn rest =
      Reads-last (load 4) (λ b. h.from_bytes b) _ _
        (load-4 (h.to_bytes (n % u32_mod)) (laws.size (n % u32_mod))) rest
      ∙ rw (laws.object (n % u32_mod) (omega arith)) (wrapped n hn rest)

  -- One field of a row that is read back.
  pub get_int-then :
      {B : Type 0} (f : ℤ → Reader B) (ys : List ℕ) (b : B) (x : ℤ)
      → IsInt x
      → Reads (f x) ys b
      → Reads (get_int h >>= f) (network_bytes (to_u32 x) ++ ys) b
  get_int-then f ys b x hx hf = Reads-bind (get_int h) f _ ys x b (get_int-Reads x hx) hf

pub length-ints_then :
    (xs : List ℤ) (tail : List ℕ) → length (ints_then xs tail) ≡ 4 * length xs + length tail
unfolding ints_then
length-ints_then [] tail = omega arith
length-ints_then (x ∷ xs) tail = omega (
  arith,
  length-append (network_bytes (to_u32 x)) (ints_then xs tail),
  length-network_bytes (to_u32 x),
  length-ints_then xs tail,
)

pub length-ints_bytes : (xs : List ℤ) → length (ints_bytes xs) ≡ 4 * length xs
unfolding ints_bytes
length-ints_bytes xs = omega (arith, length-ints_then xs [])

-- A callee reads `bs` through its own pointer; the caller then steps over as many bytes.
pub Reads-peek :
    {A B : Type 0} (m : Reader A) (n : A → ℕ) (f : A → Reader B) (bs ys : List ℕ) (a : A) (b : B)
    → length bs ≡ n a
    → Reads m bs a
    → Reads (f a) ys b
    → Reads (peek m >>= λ x. skip (n x) >>= λ _. f x) (bs ++ ys) b
unfolding ◌>>=◌ peek skip
Reads-peek m n f bs ys a b e hm hf rest =
    rw (append_assoc bs ys rest, hm (ys ++ rest), ← e, drop-length_append bs (ys ++ rest)) (hf rest)
