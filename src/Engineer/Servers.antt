-- ===== src/Engineer/Servers.antt =====
-- The two maps of servers that AddAcceptor fills, and the number of acceptors.
use cs.Base.{
  ℕ, ◌+◌, ◌≡◌, refl, ap, ◌∙◌, Option, none, some, List, [], ◌∷◌, length, arith, Bool-cases, inl,
  inr, ◌⊎◌, In,
}
use cs.Base.Int.{ℤ, eqb_ℤ, eqb_ℤ_iff}
use cs.Engineer.{Factory, add_acceptor}
use cs.Map
use cs.Map.{Map, find, find-assign, find-insert, IsSorted, insert-IsSorted}
use cs.Messages.ServerConfig
use cs.Messages.ServerInfo
use cs.Messages.ServerInfo.{ServerInfo}
use cs.Scout.{ServerAddress}

abbrev pub info_of : Option ServerAddress → Option ServerInfo
unfolding ServerInfo.new
info_of none = none
info_of (some a) = some (ServerInfo.new a.ip a.port)

pub info_of-none : info_of none ≡ none
unfolding info_of
info_of-none = refl

length-assign_new :
    (k : ℤ) (v : ServerAddress) (m : Map ServerAddress)
    → find k m ≡ none
    → length (Map.assign k v m) ≡ length m + 1
unfolding find Map.assign
length-assign_new k v [] e = omega arith
length-assign_new k v ((j, w) ∷ m) e = ground (arith, length-assign_new k v m)

-- The map for the customers tells of the same servers as the one of the scout, and the number of
-- acceptors is the number of the servers.
pub record IsConsistent (f : Factory) : Type 0 where
  pub sorted : IsSorted f.server_config.servers
  pub same : (id : ℤ) → find id f.server_config.servers ≡ info_of (find id f.scout.acceptors)
  pub count : f.scout.acceptor_count ≡ length f.scout.acceptors

same_after :
    (id j : ℤ) (ip : List ℕ) (port : ℤ) (f : Factory)
    → IsConsistent f
    → find id f.scout.acceptors ≡ none
    → find j (add_acceptor id ip port f).server_config.servers
      ≡ info_of (find j (add_acceptor id ip port f).scout.acceptors)
unfolding add_acceptor ServerConfig.set_server
same_after id j ip port f c fresh =
    let info = ServerInfo.new ip port in
    let here : find id f.server_config.servers ≡ none = c.same id ∙ ap info_of fresh in
    rw
      (
        find-assign id j (record { ip = ip; port = port }) f.scout.acceptors,
        find-insert id j info f.server_config.servers c.sorted,
        here,
      )
      (elim (Bool-cases (eqb_ℤ id j)) [ inl e ↦ rw e refl | inr e ↦ rw e (c.same j) ])

pub add_acceptor-IsConsistent :
    (id : ℤ) (ip : List ℕ) (port : ℤ) (f : Factory)
    → IsConsistent f
    → find id f.scout.acceptors ≡ none
    → IsConsistent (add_acceptor id ip port f)
unfolding add_acceptor ServerConfig.set_server
add_acceptor-IsConsistent id ip port f c fresh = record {
  sorted = insert-IsSorted id _ f.server_config.servers c.sorted;
  same = λ j. same_after id j ip port f c fresh;
  count = omega (
    arith,
    length-assign_new id (record { ip = ip; port = port }) f.scout.acceptors fresh,
    c.count,
  );
}

-- AddAcceptor for a row of servers.
unfoldable pub add_acceptors : List (ℤ × List ℕ × ℤ) → Factory → Factory
unfolding add_acceptor
add_acceptors [] f = f
add_acceptors ((id, ip, port) ∷ servers) f = add_acceptors servers (add_acceptor id ip port f)

-- No id of the row is in the map, or comes twice.
abbrev pub AllNew : List (ℤ × List ℕ × ℤ) → Factory → Type 0
AllNew [] f = Unit {0}
AllNew ((id, ip, port) ∷ servers) f =
    (find id f.scout.acceptors ≡ none) × AllNew servers (add_acceptor id ip port f)

-- From a state where the two maps tell of the same servers and acceptor_count is their number, a
-- row of AddAcceptor calls with new ids leads to such a state.
pub add_acceptors-IsConsistent :
    (servers : List (ℤ × List ℕ × ℤ)) (f : Factory)
    → IsConsistent f
    → AllNew servers f
    → IsConsistent (add_acceptors servers f)
unfolding add_acceptors
add_acceptors-IsConsistent [] f c new = c
add_acceptors-IsConsistent ((id, ip, port) ∷ servers) f c new =
    add_acceptors-IsConsistent servers (add_acceptor id ip port f)
      (add_acceptor-IsConsistent id ip port f c new.0) new.1

-- An id of the row is known, or comes twice.
abbrev pub Repeats : List ℤ → List (ℤ × List ℕ × ℤ) → Type 0
Repeats known [] = ⊥
Repeats known ((id, ip, port) ∷ servers) = In id known ⊎ Repeats (id ∷ known) servers

known_after :
    (id k : ℤ) (ip : List ℕ) (port : ℤ) (known : List ℤ) (f : Factory)
    → (find k f.scout.acceptors ≡ none) ⊎ In k known
    → (find k (add_acceptor id ip port f).scout.acceptors ≡ none) ⊎ In k (id ∷ known)
unfolding add_acceptor
known_after id k ip port known f (inr there) = inr (inr there)
known_after id k ip port known f (inl free) =
    let e = find-assign id k (record { ip = ip; port = port }) f.scout.acceptors in
    elim (Bool-cases (eqb_ℤ id k)) [
      | inl same ↦ inr (inl ((eqb_ℤ_iff id k).0 same))
      | inr other ↦ inl (e ∙ rw other free)
    ]

-- A row is new if none of its ids repeats.
pub AllNew-cases :
    (known : List ℤ) (servers : List (ℤ × List ℕ × ℤ)) (f : Factory)
    → ((k : ℤ) → (find k f.scout.acceptors ≡ none) ⊎ In k known)
    → AllNew servers f ⊎ Repeats known servers
AllNew-cases known [] f at_most = inl tt
AllNew-cases known ((id, ip, port) ∷ servers) f at_most = elim (at_most id) [
  | inr there ↦ inr (inl there)
  | inl free ↦
      elim (AllNew-cases (id ∷ known) servers (add_acceptor id ip port f)
        (λ k. known_after id k ip port known f (at_most k))) [
          | inl fresh ↦ inl (free, fresh)
          | inr again ↦ inr (inr again)
        ]
]
