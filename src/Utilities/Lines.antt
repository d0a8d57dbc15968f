-- ===== src/Utilities/Lines.antt =====
-- The decision map through its file: saveMapToFile, saveCommandToFile and loadMapFromFile.
use cs.Base.{
  ℕ, zero, suc, ◌≤◌, ◌<◌, ◌≡◌, refl, sym, ap, ◌∙◌, true, false, none, some, List, [], ◌∷◌, ◌++◌,
  length, length-append, All, append_assoc, append-nil, arith,
}
use cs.Base.Int.{ℤ}
use cs.Base.Word.{IsInt}
use cs.Map
use cs.Map.{Map, IsSorted}
use cs.Map.Rebuild.{assign_all, assign_all-nil}
use cs.Messages.Command
use cs.Messages.Command.{Command}
use cs.Utilities.{
  space, newline, put_integer, is_space, skip_spaces, read_integer, split_word, some_word,
  read_word, line, lines, save_map_to_file, save_command_to_file, read_entry, go_on, load,
  load_map_from_file,
}
use cs.Utilities.Decimal.{NoDigit, read_integer-put_integer}
use cs.Wire.{Reader, ◌>>=◌}

abbrev pub NoSpaces : List ℕ → Type 0
NoSpaces = All (λ c. is_space c ≡ false)

-- A word of a line.
abbrev pub IsWord : List ℕ → Type 0
IsWord [] = ⊥
IsWord (c ∷ cs) = NoSpaces (c ∷ cs)

split_word-append :
    (cs rest : List ℕ) → NoSpaces cs → split_word (cs ++ space ∷ rest) ≡ (cs, space ∷ rest)
unfolding split_word
split_word-append [] rest h = refl
split_word-append (c ∷ cs) rest h = rw (h.0, split_word-append cs rest h.1) refl

read_word-append :
    (w rest : List ℕ) → IsWord w → read_word (space ∷ (w ++ space ∷ rest)) ≡ some (w, space ∷ rest)
unfolding read_word skip_spaces
read_word-append [] rest h = absurd h
read_word-append (c ∷ cs) rest h = rw h.0 (ap some_word (split_word-append (c ∷ cs) rest h))

-- What a line can carry.
pub record IsWritable (key : ℤ) (c : Command) : Type 0 where
  pub key_IsInt : IsInt key
  pub slot_IsInt : IsInt c.slot
  pub id_IsInt : IsInt c.command_id
  pub ip_IsWord : IsWord c.client_ip
  pub customer_IsInt : IsInt c.customer_id
  pub order_IsInt : IsInt c.order_id

-- An integer at the start of a text, and one behind a space.
integer_first :
    {B : Type 0} (f : ℤ → Reader B) (x : ℤ) (tail rest : List ℕ)
    → IsInt x
    → NoDigit (tail ++ rest)
    → (read_integer >>= f) ((put_integer x ++ tail) ++ rest) ≡ f x (tail ++ rest)
unfolding ◌>>=◌
integer_first f x tail rest h stop =
    rw (append_assoc (put_integer x) tail rest, read_integer-put_integer x (tail ++ rest) h stop)
      refl

read_integer-space : (text : List ℕ) → read_integer (space ∷ text) ≡ read_integer text
unfolding read_integer skip_spaces
read_integer-space text = refl

integer_next :
    {B : Type 0} (f : ℤ → Reader B) (x : ℤ) (tail rest : List ℕ)
    → IsInt x
    → NoDigit (tail ++ rest)
    → (read_integer >>= f) (space ∷ ((put_integer x ++ tail) ++ rest)) ≡ f x (tail ++ rest)
unfolding ◌>>=◌
integer_next f x tail rest h stop =
    rw
      (
        read_integer-space ((put_integer x ++ tail) ++ rest),
        append_assoc (put_integer x) tail rest,
        read_integer-put_integer x (tail ++ rest) h stop,
      )
      refl

word_next :
    {B : Type 0} (f : List ℕ → Reader B) (w tail rest : List ℕ)
    → IsWord w
    → (read_word >>= f) (space ∷ ((w ++ space ∷ tail) ++ rest)) ≡ f w (space ∷ (tail ++ rest))
unfolding ◌>>=◌
word_next f w tail rest h =
    rw (append_assoc w (space ∷ tail) rest, read_word-append w (tail ++ rest) h) refl

read_entry-line :
    (key : ℤ) (c : Command) (rest : List ℕ)
    → IsWritable key c
    → read_entry (line key c ++ rest) ≡ some ((key, c), newline ∷ rest)
unfolding read_entry line Command.of_fields
read_entry-line key c rest w =
    integer_first _ key _ rest w.key_IsInt refl
    ∙ (integer_next _ c.slot _ rest w.slot_IsInt refl
        ∙ (integer_next _ c.command_id _ rest w.id_IsInt refl
            ∙ (word_next _ c.client_ip _ rest w.ip_IsWord
                ∙ (integer_next _ c.customer_id _ rest w.customer_IsInt refl
                    ∙ integer_next _ c.order_id (newline ∷ []) rest w.order_IsInt refl))))

read_entry-newline : (text : List ℕ) → read_entry (newline ∷ text) ≡ read_entry text
unfolding read_entry read_integer skip_spaces ◌>>=◌
read_entry-newline text = refl

read_entry-nil : read_entry [] ≡ none
unfolding read_entry read_integer skip_spaces ◌>>=◌
read_entry-nil = refl

load-newline :
    (fuel : ℕ) (m : Map Command) (text : List ℕ)
    → load (suc fuel) m (newline ∷ text) ≡ load (suc fuel) m text
unfolding load
load-newline fuel m text = ap (go_on (load fuel) m) (read_entry-newline text)

abbrev pub AllWritable : Map Command → Type 0
AllWritable [] = Unit {0}
AllWritable ((key, c) ∷ m) = IsWritable key c × AllWritable m

-- Lines are read one after the other, each onto the map that there is.
load-lines :
    (m : Map Command) (fuel : ℕ) (acc : Map Command)
    → AllWritable m
    → length m < fuel
    → load fuel acc (lines m) ≡ some (assign_all m acc)
unfolding load lines assign_all
load-lines m zero acc w h = absurd (omega arith)
load-lines [] (suc fuel) acc w h = rw read_entry-nil refl
load-lines ((key, c) ∷ m) (suc zero) acc w h = absurd (omega arith)
load-lines ((key, c) ∷ m) (suc (suc fuel)) acc w h =
    ap (go_on (load (suc fuel)) acc) (read_entry-line key c (lines m) w.0)
    ∙ (load-newline fuel (Map.assign key c acc) (lines m)
        ∙ load-lines m (suc fuel) (Map.assign key c acc) w.1 (omega arith))

length-lt : (xs ys : List ℕ) (c : ℕ) → 0 < length (xs ++ c ∷ ys)
length-lt xs ys c = omega (arith, length-append xs (c ∷ ys))

length-line : (key : ℤ) (c : Command) → 0 < length (line key c)
unfolding line
length-line key c = length-lt (put_integer key) _ space

length-lines : (m : Map Command) → length m ≤ length (lines m)
unfolding lines
length-lines [] = omega arith
length-lines ((key, c) ∷ m) =
    omega (arith, length-append (line key c) (lines m), length-line key c, length-lines m)

-- The map that loadMapFromFile makes of the file that saveMapToFile leaves is the map that was
-- saved, if it is in order, its integers fit an `int`, and its addresses are words without spaces.
pub load-save :
    (m : Map Command) (file : List ℕ)
    → IsSorted m
    → AllWritable m
    → load_map_from_file true (save_map_to_file true m file) ≡ some m
unfolding load_map_from_file save_map_to_file
load-save m file s w =
    load-lines m (suc (length (lines m))) [] w (omega (arith, length-lines m))
    ∙ ap some (assign_all-nil m s)

-- saveCommandToFile for one command after the other.
unfoldable pub append_all : Map Command → List ℕ → List ℕ
unfolding save_command_to_file
append_all [] file = file
append_all ((slot, c) ∷ entries) file = append_all entries (save_command_to_file true slot c file)

append_all-lines :
    (entries : Map Command) (file : List ℕ) → append_all entries file ≡ file ++ lines entries
unfolding append_all save_command_to_file lines
append_all-lines [] file = sym (append-nil file)
append_all-lines ((slot, c) ∷ entries) file =
    append_all-lines entries (file ++ line slot c) ∙ append_assoc file (line slot c) (lines entries)

-- A log to which commands were appended one by one loads as the map in which they are assigned one
-- by one, a later line of a slot in place of an earlier one.
pub load-append_all :
    (entries : Map Command)
    → AllWritable entries
    → load_map_from_file true (append_all entries []) ≡ some (assign_all entries [])
unfolding load_map_from_file
load-append_all entries w =
    ap (λ (file : List ℕ). load (suc (length file)) [] file) (append_all-lines entries [])
    ∙ load-lines entries (suc (length (lines entries))) [] w (omega (arith, length-lines entries))
