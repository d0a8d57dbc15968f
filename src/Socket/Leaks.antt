-- ===== src/Socket/Leaks.antt =====
-- Which descriptors are open after the attempts of src/ClientSocket.cpp.
use cs.Base.{
  ℕ, ◌≡◌, refl, ap, ◌∙◌, Bool, true, false, none, List, [], ◌∷◌, if◌then◌else◌, ◌||◌, arith,
}
use cs.Base.Int.{ℤ, pos, minus_one, eqb_ℤ, ltb_ℤ, ◌<ℤ◌}
use cs.Socket
use cs.Socket.Setup.{
  Address, port_bytes, Call, made, bound, listening, connecting, closing, init_client, try_servers,
}

-- A row of calls closes a descriptor.
abbrev pub closes : ℤ → List Call → Bool
closes fd [] = false
closes fd (closing other ∷ calls) = eqb_ℤ fd other || closes fd calls
closes fd (made other ∷ calls) = closes fd calls
closes fd (bound other address ∷ calls) = closes fd calls
closes fd (listening other backlog ∷ calls) = closes fd calls
closes fd (connecting other address ∷ calls) = closes fd calls

-- The descriptors that are made and not closed later.
abbrev pub left_open : List Call → List ℤ
left_open [] = []
left_open (made fd ∷ calls) =
    let rest = left_open calls in if closes fd calls || ltb_ℤ fd (pos 0) then rest else fd ∷ rest
left_open (closing fd ∷ calls) = left_open calls
left_open (bound fd address ∷ calls) = left_open calls
left_open (listening fd backlog ∷ calls) = left_open calls
left_open (connecting fd address ∷ calls) = left_open calls

-- No server can be reached.
abbrev pub AllUnreachable : List (ℤ × ℤ × List ℕ × ℤ) → Type 0
AllUnreachable [] = Unit {0}
AllUnreachable ((fd, connect, ip, port) ∷ servers) =
    (minus_one <ℤ fd) × (connect <ℤ pos 0) × AllUnreachable servers

abbrev pub descriptors : List (ℤ × ℤ × List ℕ × ℤ) → List ℤ
descriptors [] = []
descriptors ((fd, connect, ip, port) ∷ servers) = fd ∷ descriptors servers

module _ (inet_addr : List ℕ → ℕ) (junk : ℤ) where
  -- One attempt that fails, and those behind it.
  try_servers-cons :
      (fd connect port : ℤ) (ip : List ℕ) (servers : List (ℤ × ℤ × List ℕ × ℤ))
      → minus_one <ℤ fd
      → connect <ℤ pos 0
      → let (found, later) = try_servers inet_addr junk servers in
        (address : Address) × (try_servers inet_addr junk ((fd, connect, ip, port) ∷ servers)
          ≡ (found, made fd ∷ connecting fd address ∷ later))
  unfolding try_servers init_client Socket.new
  try_servers-cons fd connect port ip servers fine fails =
      let opened : ltb_ℤ fd (pos 0) ≡ false = ground arith in
      let failed : ltb_ℤ connect (pos 0) ≡ true = ground arith in
      (record { host = inet_addr ip; port = port_bytes port }, rw (opened, failed) refl)

  never_closes :
      (servers : List (ℤ × ℤ × List ℕ × ℤ)) (k : ℤ)
      → AllUnreachable servers
      → closes k (try_servers inet_addr junk servers).1 ≡ false
  unfolding try_servers
  never_closes [] k none_there = refl
  never_closes ((fd, connect, ip, port) ∷ servers) k (fine, fails, others) =
      let (address, e) = try_servers-cons fd connect port ip servers fine fails in
      ap (λ x. closes k x.1) e ∙ never_closes servers k others

  -- When no server of a row can be reached, the search ends with none, and the descriptor of every
  -- attempt is still open.
  pub try_servers_leaks :
      (servers : List (ℤ × ℤ × List ℕ × ℤ))
      → AllUnreachable servers
      → ((try_servers inet_addr junk servers).0 ≡ none)
        × (left_open (try_servers inet_addr junk servers).1 ≡ descriptors servers)
  unfolding try_servers
  try_servers_leaks [] none_there = (refl, refl)
  try_servers_leaks ((fd, connect, ip, port) ∷ servers) (fine, fails, others) =
      let (address, e) = try_servers-cons fd connect port ip servers fine fails in
      let (nothing, stay) = try_servers_leaks servers others in
      let opened : ltb_ℤ fd (pos 0) ≡ false = ground arith in
      (
        ap (λ x. x.0) e ∙ nothing,
        ap (λ x. left_open x.1) e
            ∙ rw (never_closes servers fd others, opened) (ap (λ (l : List ℤ). fd ∷ l) stay),
      )
