-- ===== src/Utilities/Loading.antt =====
-- The loop of loadMapFromFile on any file.
use cs.Base.{
  ℕ, zero, suc, ◌+◌, ◌-◌, ◌*◌, ◌^◌, ◌≤◌, ◌<◌, ◌≡◌, refl, Bool, true, false, Option, none, some,
  List, [], ◌∷◌, ltb, ◌==◌, length, arith, Bool-cases, inl, inr,
}
use cs.Base.Int.{ℤ, pos}
use cs.Map
use cs.Map.{Map}
use cs.Messages.Command.{Command}
use cs.Utilities.{
  minus, zero_digit, is_digit, skip_spaces, read_digits, in_bound, negate, read_number, read_signed,
  read_integer, split_word, some_word, read_word, read_entry, go_on, load, load_map_from_file,
}
use cs.Wire.{Reader, ◌>>=◌, read_on}

-- The length without the first character.
abbrev less : List ℕ → ℕ
less [] = 0
less (c ∷ cs) = length cs

less_le : (text : List ℕ) → less text ≤ length text
less_le [] = omega arith
less_le (c ∷ cs) = omega arith

less_mono : (xs ys : List ℕ) → length xs ≤ length ys → less xs ≤ less ys
less_mono [] ys h = omega arith
less_mono (x ∷ xs) [] h = absurd (omega arith)
less_mono (x ∷ xs) (y ∷ ys) h = omega arith

-- What is left when a text of `n` characters is read, if it is read, is at most `n`.
abbrev AtMost : {A : Type 0} → ℕ → Option (A × List ℕ) → Type 0
AtMost n none = Unit {0}
AtMost n (some (a, rest)) = length rest ≤ n

-- A reader never gives more text than it got.
abbrev NoLonger : {A : Type 0} → Reader A → Type 0
NoLonger r = (text : List ℕ) → AtMost (length text) (r text)

AtMost-mono : {A : Type 0} (m n : ℕ) (o : Option (A × List ℕ)) → m ≤ n → AtMost m o → AtMost n o
AtMost-mono m n none h a = tt
AtMost-mono m n (some (x, rest)) h a = omega (arith, a)

read_on-AtMost :
    {A B : Type 0} (n : ℕ) (o : Option (A × List ℕ)) (f : A → Reader B)
    → AtMost n o
    → ((a : A) → NoLonger (f a))
    → AtMost n (read_on o f)
read_on-AtMost n none f a g = tt
read_on-AtMost n (some (x, rest)) f a g = AtMost-mono (length rest) n (f x rest) a (g x rest)

>>=-NoLonger :
    {A B : Type 0} (m : Reader A) (f : A → Reader B)
    → NoLonger m
    → ((a : A) → NoLonger (f a))
    → NoLonger (m >>= f)
unfolding ◌>>=◌
>>=-NoLonger m f h g text = read_on-AtMost (length text) (m text) f (h text) g

length-skip_spaces : (text : List ℕ) → length (skip_spaces text) ≤ length text
unfolding skip_spaces
length-skip_spaces [] = omega arith
length-skip_spaces (c ∷ cs) = ground (arith, length-skip_spaces cs)

length-read_digits : (acc : ℕ) (text : List ℕ) → length (read_digits acc text).1 ≤ length text
unfolding read_digits
length-read_digits acc [] = omega arith
length-read_digits acc (c ∷ cs) =
    ground (arith, length-read_digits (10 * acc + (c - zero_digit)) cs)

length-split_word : (text : List ℕ) → length (split_word text).1 ≤ length text
unfolding split_word
length-split_word [] = omega arith
length-split_word (c ∷ cs) = ground (arith, length-split_word cs)

in_bound-AtMost :
    (bound n : ℕ) (sign : ℕ → ℤ) (p : ℕ × List ℕ)
    → length p.1 ≤ n
    → AtMost n (in_bound bound sign p)
in_bound-AtMost bound n sign (k, rest) h = elim (Bool-cases (ltb k bound)) [
  | inl e ↦ rw e h
  | inr e ↦ rw e tt
]

-- A number takes at least its first digit.
read_number-shorter :
    (bound : ℕ) (sign : ℕ → ℤ) (text : List ℕ) → AtMost (less text) (read_number bound sign text)
unfolding read_number
read_number-shorter bound sign [] = tt
read_number-shorter bound sign (c ∷ cs) = elim (Bool-cases (is_digit c)) [
  | inl e ↦ rw e (
      in_bound-AtMost bound (length cs) sign (read_digits (0 + (c - zero_digit)) cs)
        (length-read_digits (0 + (c - zero_digit)) cs))
  | inr e ↦ rw e tt
]

read_signed-shorter : (text : List ℕ) → AtMost (less text) (read_signed text)
unfolding read_signed
read_signed-shorter [] = tt
read_signed-shorter (c ∷ cs) = elim (Bool-cases (c == minus)) [
  | inl e ↦ rw e (
      AtMost-mono (less cs) (length cs) (read_number (2 ^ 31 + 1) negate cs) (less_le cs)
        (read_number-shorter (2 ^ 31 + 1) negate cs))
  | inr e ↦ elim (Bool-cases (c == b'+')) [
    | inl f ↦
        rw (e, f)
          (AtMost-mono (less cs) (length cs) (read_number (2 ^ 31) pos cs) (less_le cs)
            (read_number-shorter (2 ^ 31) pos cs))
    | inr f ↦ rw (e, f) (read_number-shorter (2 ^ 31) pos (c ∷ cs))
  ]
]

read_integer-shorter : (text : List ℕ) → AtMost (less text) (read_integer text)
unfolding read_integer
read_integer-shorter text =
    AtMost-mono (less (skip_spaces text)) (less text) _
      (less_mono (skip_spaces text) text (length-skip_spaces text))
      (read_signed-shorter (skip_spaces text))

read_integer-NoLonger : NoLonger read_integer
read_integer-NoLonger text =
    AtMost-mono (less text) (length text) (read_integer text) (less_le text)
      (read_integer-shorter text)

some_word-AtMost : (n : ℕ) (p : List ℕ × List ℕ) → length p.1 ≤ n → AtMost n (some_word p)
some_word-AtMost n ([], rest) h = tt
some_word-AtMost n (c ∷ word, rest) h = h

read_word-NoLonger : NoLonger read_word
unfolding read_word
read_word-NoLonger text =
    some_word-AtMost (length text) (split_word (skip_spaces text))
      (omega (arith, length-split_word (skip_spaces text), length-skip_spaces text))

-- An empty text has no integer.
read_integer-AtMost :
    {B : Type 0} (f : ℤ → Reader B) (text : List ℕ)
    → ((x : ℤ) → NoLonger (f x))
    → AtMost (less text) ((read_integer >>= f) text)
unfolding ◌>>=◌
read_integer-AtMost f text g =
    read_on-AtMost (less text) (read_integer text) f (read_integer-shorter text) g

read_entry-shorter : (text : List ℕ) → AtMost (less text) (read_entry text)
unfolding read_entry
read_entry-shorter text = read_integer-AtMost _ text (λ key.
    >>=-NoLonger read_integer _ read_integer-NoLonger (λ slot.
      >>=-NoLonger read_integer _ read_integer-NoLonger (λ id.
        >>=-NoLonger read_word _ read_word-NoLonger (λ ip.
          >>=-NoLonger read_integer _ read_integer-NoLonger (λ customer.
            >>=-NoLonger read_integer _ read_integer-NoLonger (λ order text. omega arith))))))

read_entry-nil : read_entry [] ≡ none
unfolding read_entry read_integer skip_spaces ◌>>=◌
read_entry-nil = refl

Loads : Option (Map Command) → Type 0
Loads none = ⊥
Loads (some m) = Unit {0}

go_on-Loads :
    (next : Map Command → List ℕ → Option (Map Command)) (m : Map Command) (n : ℕ)
    (o : Option ((ℤ × Command) × List ℕ))
    → AtMost n o
    → ((m' : Map Command) (rest : List ℕ) → length rest ≤ n → Loads (next m' rest))
    → Loads (go_on next m o)
unfolding Loads
go_on-Loads next m n none a g = tt
go_on-Loads next m n (some ((key, c), rest)) a g = g (Map.assign key c m) rest a

load-Loads :
    (fuel : ℕ) (m : Map Command) (text : List ℕ) → length text < fuel → Loads (load fuel m text)
unfolding load Loads
load-Loads zero m text h = absurd (omega arith)
load-Loads (suc fuel) m [] h = rw read_entry-nil tt
load-Loads (suc fuel) m (c ∷ cs) h =
    go_on-Loads (load fuel) m (length cs) (read_entry (c ∷ cs)) (read_entry-shorter (c ∷ cs))
      (λ m' rest shorter. load-Loads fuel m' rest (omega (arith, shorter)))

loaded : (o : Option (Map Command)) → Loads o → (m : Map Command) × (o ≡ some m)
unfolding Loads
loaded none l = absurd l
loaded (some m) l = (m, refl)

-- loadMapFromFile ends with a map, whatever the file holds and whether or not it can be opened.
pub load-ends :
    (opens : Bool) (file : List ℕ) → (m : Map Command) × (load_map_from_file opens file ≡ some m)
unfolding load_map_from_file
load-ends false file = ([], refl)
load-ends true file =
    loaded (load (suc (length file)) [] file) (load-Loads (suc (length file)) [] file (omega arith))
