-- ===== src/Pci/Find.antt =====
-- The search of pci.c in the table of devices.
use apsyde.Common.{ℕ, zero, suc, ◌≡◌, inl, inr, Bool, [], ◌∷◌, Bool-cases, ◌⊎◌, true, false, arith}
use apsyde.Pci.{pci_find, Device, find_from, Table, matches}

-- The device that a caller of pci_find asks for: 0xFF stands for any subclass or any programming
-- interface.
abbrev pub IsWanted : ℕ → ℕ → ℕ → Device → Type 0
IsWanted class_code subclass prog_if d =
    (d.class_code ≡ class_code)
    × ((subclass ≡ 0xff) ⊎ (d.subclass ≡ subclass))
    × ((prog_if ≡ 0xff) ⊎ (d.prog_if ≡ prog_if))

-- `out` holds the first devices of the table with a property, in its order, and at most `room`.
pub data FirstOf (P : Device → Type 0) : ℕ → Table → Table → Type 0 where
  full : (t : Table) → FirstOf P 0 t []
  end : (room : ℕ) → FirstOf P room [] []
  hit :
      (room : ℕ) (d : Device) (t out : Table)
      → P d
      → FirstOf P room t out
      → FirstOf P (suc room) (d ∷ t) (d ∷ out)
  miss :
      (room : ℕ) (d : Device) (t out : Table)
      → ¬ P d
      → FirstOf P (suc room) t out
      → FirstOf P (suc room) (d ∷ t) out

matches-IsWanted :
    (class_code subclass prog_if : ℕ) (d : Device)
    → matches class_code subclass prog_if d ≡ true
    → IsWanted class_code subclass prog_if d
unfolding matches
matches-IsWanted class_code subclass prog_if d h = ground (arith, h)

IsWanted-matches :
    (class_code subclass prog_if : ℕ) (d : Device)
    → matches class_code subclass prog_if d ≡ false
    → ¬ IsWanted class_code subclass prog_if d
unfolding matches
IsWanted-matches class_code subclass prog_if d h w = ground (arith, h, w)

find_from-FirstOf :
    (P : Device → Type 0) (test : Device → Bool)
    → ((d : Device) → test d ≡ true → P d)
    → ((d : Device) → test d ≡ false → ¬ P d)
    → (room : ℕ) (t : Table) → FirstOf P room t (find_from test room t)
unfolding find_from
find_from-FirstOf P test held failed zero t = full t
find_from-FirstOf P test held failed (suc room) [] = end (suc room)
find_from-FirstOf P test held failed (suc room) (d ∷ t) = elim (Bool-cases (test d)) [
  | inl e ↦ rw e (hit room d t _ (held d e) (find_from-FirstOf P test held failed room t))
  | inr e ↦ rw e (miss room d t _ (failed d e) (find_from-FirstOf P test held failed (suc room) t))
]

-- pci_find returns the first devices of the table, at most as many as asked for, in its order,
-- that have the class, and the subclass and programming interface where these are not 0xFF.
pub pci_find_lem :
    (class_code subclass prog_if max : ℕ) (t : Table)
    → FirstOf
        (IsWanted class_code subclass prog_if)
        max
        t
        (pci_find class_code subclass prog_if max t)
unfolding pci_find
pci_find_lem class_code subclass prog_if max t =
    find_from-FirstOf _ _ (matches-IsWanted class_code subclass prog_if)
      (IsWanted-matches class_code subclass prog_if) max t
