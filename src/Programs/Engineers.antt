-- ===== src/Programs/Engineers.antt =====
-- The engineers that main of src/ServerMain.cpp starts.
use cs.Base.{
  ℕ, ◌+◌, ◌≡◌, refl, Bool, true, false, List, [], ◌∷◌, if◌then◌else◌, Bool-cases, inl, inr,
}
use cs.Base.Int.{ℤ, pos, negsuc, ltb_ℤ}
use cs.Programs.{accept_loop}
use cs.Socket.{Socket, is_nagle_on, nagle_on}
use cs.Socket.Setup.{accept, accepted_socket}

-- The connections before the first failure.
abbrev pub accepted_fds : List (ℤ × ℤ) → List ℤ
accepted_fds [] = []
accepted_fds ((fd, option) ∷ answers) =
    let later = accepted_fds answers in if ltb_ℤ fd (pos 0) then [] else fd ∷ later

-- The engineers of a row of connections, numbered from `count` on.
abbrev pub IsRow : Socket → ℕ → List ℤ → List (ℕ × Socket) → Type 0
IsRow listening count [] [] = Unit {0}
IsRow listening count [] (e ∷ engineers) = ⊥
IsRow listening count (fd ∷ fds) [] = ⊥
IsRow listening count (fd ∷ fds) ((number, s) ∷ engineers) =
    (number ≡ count)
    × (s.fd ≡ fd)
    × (s.is_initialized ≡ true)
    × (is_nagle_on s ≡ is_nagle_on listening)
    × IsRow listening (count + 1) fds engineers

nagle_kept :
    (fd : ℤ) (on_off : Bool) (option junk : ℤ)
    → is_nagle_on (accepted_socket fd on_off option junk) ≡ on_off
unfolding accepted_socket nagle_on is_nagle_on
nagle_kept fd true (pos n) junk = refl
nagle_kept fd false (pos n) junk = refl
nagle_kept fd true (negsuc n) junk = refl
nagle_kept fd false (negsuc n) junk = refl

accepted_kept :
    (fd : ℤ) (on_off : Bool) (option junk : ℤ)
    → ((accepted_socket fd on_off option junk).fd ≡ fd)
      × ((accepted_socket fd on_off option junk).is_initialized ≡ true)
unfolding accepted_socket nagle_on
accepted_kept fd on_off (pos n) junk = (refl, refl)
accepted_kept fd on_off (negsuc n) junk = (refl, refl)

-- Whatever accept answers, one engineer is started for each connection before the first failure, and
-- none after it; they are numbered upwards, and each has an initialised socket of its connection with
-- the Nagle flag of the listening socket.
pub accept_loop-IsRow :
    (junk : ℤ) (listening : Socket) (answers : List (ℤ × ℤ)) (count : ℕ)
    → IsRow listening count (accepted_fds answers) (accept_loop junk listening answers count)
unfolding accept_loop accept
accept_loop-IsRow junk listening [] count = tt
accept_loop-IsRow junk listening ((fd, option) ∷ answers) count =
    elim (Bool-cases (ltb_ℤ fd (pos 0))) [
      | inl failed ↦ rw failed tt
      | inr made ↦
          let (same, up) = accepted_kept fd (is_nagle_on listening) option junk in
          rw made (
            refl,
            same,
            up,
            nagle_kept fd (is_nagle_on listening) option junk,
            accept_loop-IsRow junk listening answers (count + 1),
          )
    ]
