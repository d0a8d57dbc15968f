-- ===== src/Messages/Command.antt =====
-- class Command (src/Messages.h, src/Messages.cpp): what the replicas agree on.
use cs.Base.{ℕ, ◌∷◌, [], List, ◌%◌}
use cs.Base.Int.{ℤ, minus_one}
use cs.Base.Word.{to_u32}
use cs.Messages.LaptopInfo.{LaptopInfo}

-- "000.000.000.000"
abbrev pub default_ip : List ℕ
default_ip =
    b'0' ∷ b'0' ∷ b'0' ∷ b'.' ∷ b'0' ∷ b'0' ∷ b'0' ∷ b'.' ∷ b'0' ∷ b'0' ∷ b'0' ∷ b'.' ∷ b'0' ∷ b'0'
    ∷ b'0' ∷ []

pub record Command : Type 0 where
  pub slot : ℤ
  pub command_id : ℤ
  pub client_ip : List ℕ
  pub customer_id : ℤ
  pub order_id : ℤ

-- The default constructor leaves `slot` as it finds it: `junk` is what the memory held.
unfoldable pub new : ℤ → Command
new junk = record {
  slot = junk;
  command_id = minus_one;
  client_ip = default_ip;
  customer_id = minus_one;
  order_id = minus_one;
}

-- Command(LaptopInfo &) sets two fields and leaves the rest as the default constructor does.
unfoldable pub of_laptop : ℤ → LaptopInfo → Command
unfolding new
of_laptop junk laptop = record (new junk) {
  customer_id = laptop.customer_id;
  order_id = laptop.order_number;
}

unfoldable pub of_fields : ℤ → ℤ → List ℕ → ℤ → ℤ → Command
of_fields slot command_id client_ip customer_id order_id = record {
  slot = slot;
  command_id = command_id;
  client_ip = client_ip;
  customer_id = customer_id;
  order_id = order_id;
}

unfoldable pub set_slot : Command → ℤ → Command
set_slot c slot = record c { slot = slot }

unfoldable pub set_command_id : Command → ℤ → Command
set_command_id c id = record c { command_id = id }

-- The parameter is an `int`: assigning it to the string makes a text of one character of it.
unfoldable pub set_client_ip : Command → ℤ → Command
unfolding to_u32
set_client_ip c ip = record c { client_ip = (to_u32 ip % 256) ∷ [] }
