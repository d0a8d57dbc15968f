-- ===== src/Wire/Hosts.antt =====
-- Two machines at which the laws of a host hold: one stores the lowest byte first, one the highest.
use cs.Base.{ℕ, ◌+◌, ◌*◌, ◌/◌, ◌%◌, ◌^◌, refl, List, [], ◌∷◌, arith}
use cs.Base.Word.{network_bytes}
use cs.Wire.{Host, IsHost}

abbrev low_first : ℕ → List ℕ
low_first w = (w % 256) ∷ (w / 2 ^ 8 % 256) ∷ (w / 2 ^ 16 % 256) ∷ (w / 2 ^ 24 % 256) ∷ []

abbrev of_low_first : List ℕ → ℕ
of_low_first [] = 0
of_low_first (b ∷ bytes) = b + 256 * of_low_first bytes

abbrev high_first : ℕ → List ℕ
high_first w = (w / 2 ^ 24 % 256) ∷ (w / 2 ^ 16 % 256) ∷ (w / 2 ^ 8 % 256) ∷ (w % 256) ∷ []

abbrev of_high_first : List ℕ → ℕ
of_high_first (a ∷ b ∷ c ∷ d ∷ []) = a * 2 ^ 24 + b * 2 ^ 16 + c * 2 ^ 8 + d
of_high_first _ = 0

abbrev pub little_endian : Host
little_endian = record {
  to_bytes = low_first;
  from_bytes = of_low_first;
  htonl = λ w. of_high_first (low_first w);
  ntohl = λ w. of_high_first (low_first w);
}

abbrev pub big_endian : Host
big_endian = record {
  to_bytes = high_first;
  from_bytes = of_high_first;
  htonl = λ w. w;
  ntohl = λ w. w;
}

pub little_endian-IsHost : IsHost little_endian
unfolding network_bytes
little_endian-IsHost = record {
  size = λ w. refl;
  object = λ w h. omega arith;
  to_network = λ w h. ground arith;
  from_network = λ w h. omega arith;
}

pub big_endian-IsHost : IsHost big_endian
unfolding network_bytes
big_endian-IsHost = record {
  size = λ w. refl;
  object = λ w h. omega arith;
  to_network = λ w h. refl;
  from_network = λ w h. omega arith;
}
