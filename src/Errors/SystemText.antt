-- ===== src/Errors/SystemText.antt =====
-- src/lib/errors.cpp, get_error_string: the text of the system for an error, and the loops that erase
-- characters from it. The text that FormatMessage writes is a parameter.
use etwork.Common.{
  ℕ, zero, suc, ◌≤◌, false, Option, none, some, List, [], ◌∷◌, ◌≡◌, ◌≢◌, refl, ap, arith, length,
  take, ◌==◌, if◌then◌else◌, ◌⊎◌, inl, inr, Bool-cases,
}

-- error_.find( c ) and error_.erase( pos, 1 )
unfoldable pub erase_first : ℕ → List ℕ → Option (List ℕ)
erase_first c [] = none
erase_first c (x ∷ xs) =
    let rest = erase_first c xs in
    if x == c then some xs else elim rest [ none ↦ none | some ys ↦ some (x ∷ ys) ]

abbrev erase_round : (List ℕ → List ℕ) → List ℕ → Option (List ℕ) → List ℕ
erase_round again s none = s
erase_round again s (some t) = again t

-- while( (pos = error_.find( c )) != npos ) error_.erase( pos, 1 ); with the number of rounds bounded.
unfoldable pub erase_loop : ℕ → ℕ → List ℕ → List ℕ
erase_loop zero c s = s
erase_loop (suc rounds) c s = erase_round (erase_loop rounds c) s (erase_first c s)

-- No more rounds than characters.
unfoldable pub erase_all : ℕ → List ℕ → List ℕ
erase_all c s = erase_loop (length s) c s

-- buf holds at most 2047 characters.
unfoldable pub get_error_string : (ℕ → List ℕ) → ℕ → List ℕ
get_error_string format_message err =
    let s = take 2047 (format_message err) in
    if err == 0 then [] else erase_all 46 (erase_all 13 (erase_all 10 s))

-- The characters that are kept.
abbrev pub without : ℕ → List ℕ → List ℕ
without c [] = []
without c (x ∷ xs) = if x == c then without c xs else x ∷ without c xs

-- Erasing one character leaves the same others; where there is none, all are others.
erase_first_cases :
    (c : ℕ) (s : List ℕ)
    → ((erase_first c s ≡ none) × (without c s ≡ s))
      ⊎ ((t : List ℕ) × (erase_first c s ≡ some t)
          × (without c t ≡ without c s)
          × (suc (length t) ≡ length s))
unfolding erase_first
erase_first_cases c [] = inl (refl, refl)
erase_first_cases c (x ∷ xs) = elim (Bool-cases (x == c)) [
  | inl e ↦ inr (xs, rw e refl, rw e refl, refl)
  | inr e ↦ elim (erase_first_cases c xs) [
    | inl (a, b) ↦ inl (rw (e, a) refl, rw (e, b) refl)
    | inr (t, a, b, n) ↦ inr (x ∷ t, rw (e, a) refl, rw (e, b) refl, ap suc n)
  ]
]

erase_loop_lem :
    (rounds c : ℕ) (s : List ℕ) → length s ≤ rounds → erase_loop rounds c s ≡ without c s
unfolding erase_loop
erase_loop_lem zero c [] h = refl
erase_loop_lem zero c (x ∷ xs) h = absurd (omega arith)
erase_loop_lem (suc rounds) c s h = elim (erase_first_cases c s) [
  | inl (a, b) ↦ rw (a, b) refl
  | inr (t, a, b, n) ↦ rw (a, ← b) (erase_loop_lem rounds c t (omega (arith, n)))
]

-- For an error that is not 0 and every text of the system, the loops end within as many rounds
-- as it has characters, and what is left are its characters, up to 2047 of them, without line
-- feeds, carriage returns and full stops.
pub get_error_string_lem :
    (format_message : ℕ → List ℕ) (err : ℕ)
    → err ≢ 0
    → get_error_string format_message err
      ≡ without 46 (without 13 (without 10 (take 2047 (format_message err))))
unfolding get_error_string erase_all
get_error_string_lem format_message err h =
    let e : (err == 0) ≡ false = ground arith in
    let loop : (c : ℕ) (s : List ℕ) → erase_loop (length s) c s ≡ without c s =
      λ c s. erase_loop_lem (length s) c s (omega arith) in
    rw (e, loop 10 (take 2047 (format_message err)), loop 13 _, loop 46 _) refl
