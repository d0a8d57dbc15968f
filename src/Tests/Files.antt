-- ===== src/Tests/Files.antt =====
-- Runs of src/Utilities.cpp.
use cs.Base.{ℕ, ◌≡◌, refl, ◌<◌, true, some, none, [], ◌∷◌, arith}
use cs.Base.Int.{ℤ, pos, negsuc}
use cs.Map.{Map}
use cs.Map.Rebuild.{assign_all}
use cs.Messages.Command.{Command}
use cs.Wire.{◌>>=◌}
use cs.Utilities.{save_map_to_file, load_map_from_file, generate_command_id, read_entry}
use cs.Utilities.Loading.{load-ends}
use cs.Utilities.Lines.{IsWritable, load-save, append_all, load-append_all}

abbrev command : ℤ → ℤ → Command
command slot order = record {
  slot = slot;
  command_id = pos 110000042;
  client_ip = b'1' ∷ b'.' ∷ b'2' ∷ [];
  customer_id = negsuc 6;
  order_id = order;
}

abbrev two_decisions : Map Command
two_decisions = (pos 1, command (pos 1) (pos 20)) ∷ (pos 12, command (pos 12) (pos 0)) ∷ []

writable :
    (slot order : ℕ)
    → slot < 100
    → order < 100
    → IsWritable (pos slot) (command (pos slot) (pos order))
writable slot order h k = record {
  key_IsInt = omega arith;
  slot_IsInt = omega arith;
  id_IsInt = omega arith;
  ip_IsWord = (refl, (refl, (refl, tt)));
  customer_IsInt = omega arith;
  order_IsInt = omega arith;
}

two_decisions_file :
    load_map_from_file true (save_map_to_file true two_decisions []) ≡ some two_decisions
unfolding load_map_from_file save_map_to_file ◌>>=◌
two_decisions_file = refl

load-save_example :
    load_map_from_file true (save_map_to_file true two_decisions []) ≡ some two_decisions
load-save_example =
    load-save two_decisions [] (omega arith, tt)
      (writable 1 20 (omega arith) (omega arith), (writable 12 0 (omega arith) (omega arith), tt))

-- The second line of slot 1 takes the place of the first.
abbrev rewritten : Map Command
rewritten = (pos 1, command (pos 1) (pos 20)) ∷ (pos 1, command (pos 1) (pos 21)) ∷ []

load-append_all_example :
    load_map_from_file true (append_all rewritten []) ≡ some (assign_all rewritten [])
load-append_all_example =
    load-append_all rewritten
      (writable 1 20 (omega arith) (omega arith), (writable 1 21 (omega arith) (omega arith), tt))

-- An integer that does not fit is not read.
too_large :
    read_entry (b'4' ∷ b'2' ∷ b'9' ∷ b'4' ∷ b'9' ∷ b'6' ∷ b'7' ∷ b'2' ∷ b'9' ∷ b'6' ∷ []) ≡ none
unfolding read_entry ◌>>=◌
too_large = refl

-- Two servers make the same id, ten seconds apart.
ids_collide : generate_command_id (pos 1) 1320000000 ≡ generate_command_id (pos 2) 1310000000
unfolding generate_command_id
ids_collide = refl

-- A file that is no log loads as the empty map.
load-ends_example : (m : Map Command) × (load_map_from_file true (b'7' ∷ b' ' ∷ b'x' ∷ []) ≡ some m)
load-ends_example = load-ends true (b'7' ∷ b' ' ∷ b'x' ∷ [])
