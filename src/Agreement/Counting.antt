-- ===== src/Agreement/Counting.antt =====
-- Counting sites, and the sites that two majorities share.
use cs.Agreement.{Site, at}
use cs.Base.{
  In, ℕ, ◌+◌, ◌-◌, ◌≤◌, ◌<◌, ◌≡◌, refl, inl, inr, Bool, true, ◌&&◌, List, [], ◌∷◌, if◌then◌else◌,
  ◌==◌, length, All, Bool-cases, arith,
}

-- How many sites pass a test.
unfoldable pub count : (Site → Bool) → List Site → ℕ
count p [] = 0
count p (s ∷ sites) = (if p s then 1 else 0) + count p sites

pub count-le : (p : Site → Bool) (sites : List Site) → count p sites ≤ length sites
unfolding count
count-le p [] = omega arith
count-le p (s ∷ sites) = ground (arith, count-le p sites)

-- Two tests that together pass more often than there are sites pass at one site.
pub overlap :
    (p q : Site → Bool) (sites : List Site)
    → length sites < count p sites + count q sites
    → (s : Site) × In s sites × (p s ≡ true) × (q s ≡ true)
unfolding count
overlap p q [] h = absurd (omega arith)
overlap p q (s ∷ sites) h = elim (Bool-cases (p s && q s)) [
  | inl both ↦ (s, inl refl, ground arith, ground arith)
  | inr other ↦ let (t, i, a, b) = overlap p q sites (ground arith) in (t, inr i, a, b)
]

pub All-at :
    (P : Site → Type 0) (f : Site → Site) (k : ℕ) (sites : List Site)
    → ((s : Site) → P s → P (f s))
    → All P sites
    → All P (at k f sites)
All-at P f k [] keep a = tt
All-at P f k (s ∷ sites) keep a = elim (Bool-cases (k == 0)) [
  | inl e ↦ rw e (keep s a.0, a.1)
  | inr e ↦ rw e (a.0, All-at P f (k - 1) sites keep a.1)
]

pub length-at : (f : Site → Site) (k : ℕ) (sites : List Site) → length (at k f sites) ≡ length sites
length-at f k [] = refl
length-at f k (s ∷ sites) = ground (arith, length-at f (k - 1) sites)

-- A test that a change of a site never turns on passes at most as often afterwards.
pub count-at_le :
    (P : Site → Type 0) (p : Site → Bool) (f : Site → Site) (k : ℕ) (sites : List Site)
    → ((s : Site) → P s → p (f s) ≡ true → p s ≡ true)
    → All P sites
    → count p (at k f sites) ≤ count p sites
unfolding count
count-at_le P p f k [] h a = omega arith
count-at_le P p f k (s ∷ sites) h a = elim (Bool-cases (k == 0)) [
  | inl e ↦ rw e (ground (arith, h s a.0))
  | inr e ↦ rw e (omega (arith, count-at_le P p f (k - 1) sites h a.1))
]

-- And one that it never turns off at least as often.
pub count-le-at :
    (p : Site → Bool) (f : Site → Site) (k : ℕ) (sites : List Site)
    → ((s : Site) → p s ≡ true → p (f s) ≡ true)
    → count p sites ≤ count p (at k f sites)
unfolding count
count-le-at p f k [] h = omega arith
count-le-at p f k (s ∷ sites) h = elim (Bool-cases (k == 0)) [
  | inl e ↦ rw e (ground (arith, h s))
  | inr e ↦ rw e (omega (arith, count-le-at p f (k - 1) sites h))
]

pub count_mono :
    (p q : Site → Bool) (sites : List Site)
    → ((s : Site) → p s ≡ true → q s ≡ true)
    → count p sites ≤ count q sites
unfolding count
count_mono p q [] h = omega arith
count_mono p q (s ∷ sites) h = ground (arith, h s, count_mono p q sites h)
