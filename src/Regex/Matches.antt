-- ===== src/Regex/Matches.antt =====
-- What `do_regex` captures.
use sacagawea.Common.{
  ap, inr, inl, zero, refl, suc, ◌⊎◌, Bool-cases, arith, [], false, ◌≤◌, true, length, ◌≡◌, drop,
  ◌++◌, ◌∷◌, All, Bool, starts_with, Bytes, ℕ,
}
use sacagawea.Regex.{behind_key, behind_spaces, capture, is_space, Pattern, do_regex}

abbrev pub InClass : (ℕ → Bool) → ℕ → Type 0
InClass in_class c = in_class c ≡ true

abbrev pub IsSpace : ℕ → Type 0
IsSpace c = is_space c ≡ true

capture_sound :
    (in_class : ℕ → Bool) (n : ℕ) (s : Bytes)
    → All (InClass in_class) (capture in_class n s) × (length (capture in_class n s) ≤ n)
capture_sound in_class zero s = (tt, omega arith)
capture_sound in_class (suc n) [] = (tt, omega arith)
capture_sound in_class (suc n) (c ∷ s) = ground (arith, capture_sound in_class n s)

behind_spaces_sound :
    (p : Pattern) (s : Bytes)
    → All (InClass p.in_class) (behind_spaces p s) × (length (behind_spaces p s) ≤ p.most)
behind_spaces_sound p [] = (tt, omega arith)
behind_spaces_sound p (c ∷ s) =
    ground (arith, behind_spaces_sound p s, capture_sound p.in_class p.most (c ∷ s))

behind_key_sound :
    (p : Pattern) (s : Bytes)
    → All (InClass p.in_class) (behind_key p s) × (length (behind_key p s) ≤ p.most)
behind_key_sound p [] = (tt, omega arith)
behind_key_sound p (c ∷ s) = ground (arith, behind_spaces_sound p s)

-- Whatever the line is, what is captured is at most `most` bytes of the class.
pub do_regex_sound :
    (p : Pattern) (str : Bytes)
    → All (InClass p.in_class) (do_regex p str) × (length (do_regex p str) ≤ p.most)
unfolding do_regex
do_regex_sound p str = elim (Bool-cases (starts_with p.key str)) [
  | inl found ↦ rw found (behind_key_sound p (drop (length p.key) str))
  | inr other ↦ rw other (tt, omega arith)
]

-- Where the capture of `field` stops in front of `rest`: at a byte of another class, at the most
-- bytes that the pattern takes, or at the end.
abbrev pub Stops : Pattern → Bytes → Bytes → Type 0
Stops p field [] = Unit
Stops p field (c ∷ rest) = (p.in_class c ≡ false) ⊎ (length field ≡ p.most)

abbrev StopsAt : (ℕ → Bool) → ℕ → Bytes → Bytes → Type 0
StopsAt in_class n field [] = Unit
StopsAt in_class n field (c ∷ rest) = (in_class c ≡ false) ⊎ (length field ≡ n)

capture-All :
    (in_class : ℕ → Bool) (n : ℕ) (field rest : Bytes)
    → All (InClass in_class) field
    → length field ≤ n
    → StopsAt in_class n field rest
    → capture in_class n (field ++ rest) ≡ field
capture-All in_class zero [] rest h l st = refl
capture-All in_class (suc n) [] [] h l st = refl
capture-All in_class (suc n) [] (c ∷ rest) h l st = ground arith
capture-All in_class zero (d ∷ field) rest h l st = absurd (omega arith)
capture-All in_class (suc n) (d ∷ field) rest h l st =
    rw h.0 (ap (◌∷◌ d) (capture-All in_class n field rest h.1 (omega arith) (down rest st)))
  where
    down : (r : Bytes) → StopsAt in_class (suc n) (d ∷ field) r → StopsAt in_class n field r
    down [] s = tt
    down (c ∷ r) (inl e) = inl e
    down (c ∷ r) (inr e) = inr (omega arith)

behind_spaces_skip :
    (p : Pattern) (ws : Bytes) (d : ℕ) (s : Bytes) {e : ℕ} {field : Bytes}
    → All IsSpace ws
    → is_space d ≡ false
    → capture p.in_class p.most (d ∷ s) ≡ e ∷ field
    → behind_spaces p (ws ++ d ∷ s) ≡ e ∷ field
behind_spaces_skip p [] d s h n found = rw (n, found)
behind_spaces_skip p (w ∷ ws) d s h n found = rw (h.0, behind_spaces_skip p ws d s h.1 n found)

starts_with_self : (p s : Bytes) → starts_with p (p ++ s) ≡ true
unfolding starts_with
starts_with_self [] s = refl
starts_with_self (c ∷ p) s = ground (arith, starts_with_self p s)

drop_self : (p s : Bytes) → drop (length p) (p ++ s) ≡ s
drop_self [] s = refl
drop_self (c ∷ p) s = drop_self p s

-- A line of the key, some white space and a field of the class gives back the field, if the field
-- does not begin with white space and the capture stops behind it.
pub do_regex_match :
    (p : Pattern) (w : ℕ) (ws : Bytes) (d : ℕ) (field rest : Bytes)
    → All IsSpace (w ∷ ws)
    → is_space d ≡ false
    → All (InClass p.in_class) (d ∷ field)
    → length (d ∷ field) ≤ p.most
    → Stops p (d ∷ field) rest
    → do_regex p (p.key ++ (w ∷ (ws ++ d ∷ (field ++ rest)))) ≡ d ∷ field
unfolding do_regex
do_regex_match p w ws d field rest blank first digits fits stops =
    rw
      (
        starts_with_self p.key (w ∷ (ws ++ d ∷ (field ++ rest))),
        drop_self p.key (w ∷ (ws ++ d ∷ (field ++ rest))),
        blank.0,
      )
      (behind_spaces_skip p ws d (field ++ rest) blank.1 first
        (capture-All p.in_class p.most (d ∷ field) rest digits fits (same rest stops)))
  where
    same : (r : Bytes) → Stops p (d ∷ field) r → StopsAt p.in_class p.most (d ∷ field) r
    same [] s = tt
    same (c ∷ r) s = s
