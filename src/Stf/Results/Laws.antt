-- ===== src/Stf/Results/Laws.antt =====
-- Result names and counts.
use zfstest.Prelude.{
  ℕ, zero, suc, ◌-◌, ◌<◌, ◌≡◌, refl, false, List, [], ◌∷◌, if◌then◌else◌, none, some, pos, negsuc,
  ℤ, ltb, arith, Bool-cases, inl, inr, ◌∙◌, ◌⊎◌, length, ap,
}
use zfstest.Stf.Number.{Text}
use zfstest.Stf.Results.{
  result_tbl, max_results, other, name_at, get_status_name, same_text, set_counts, matches,
  read_counts,
}

abbrev pub count_at : List ℕ → ℕ → ℕ
count_at [] i = 0
count_at (n ∷ ns) zero = n
count_at (n ∷ ns) (suc i) = count_at ns i

-- What is counted for a name: the last pair with it, or what was there before.
abbrev pub last_count : Text → List (Text × ℕ) → ℕ → ℕ
last_count name [] n = n
last_count name ((x, count) ∷ rest) n = last_count name rest (if same_text x name then count else n)

count_at-set_counts :
    (names : List Text) (name : Text) (count : ℕ) (counts : List ℕ) (i : ℕ)
    → length counts ≡ length names
    → i < length names
    → count_at (set_counts names name count counts) i
      ≡ (if same_text name (name_at names i) then count else count_at counts i)
unfolding set_counts
count_at-set_counts [] name count counts i _ h = absurd (omega arith)
count_at-set_counts (x ∷ xs) name count [] i e _ = absurd (omega arith)
count_at-set_counts (x ∷ xs) name count (n ∷ counts) zero _ _ = refl
count_at-set_counts (x ∷ xs) name count (n ∷ counts) (suc i) e h =
    count_at-set_counts xs name count counts i (omega arith) (omega arith)

length-set_counts :
    (names : List Text) (name : Text) (count : ℕ) (counts : List ℕ)
    → length (set_counts names name count counts) ≡ length counts
unfolding set_counts
length-set_counts [] name count counts = refl
length-set_counts (x ∷ xs) name count [] = refl
length-set_counts (x ∷ xs) name count (n ∷ counts) =
    omega (arith, length-set_counts xs name count counts)

-- The count of a name is the last one given for it, and what it was if none is given.
pub read_counts-last_count :
    (pairs : List (Text × ℕ)) (counts result : List ℕ) (i : ℕ)
    → length counts ≡ max_results
    → i < max_results
    → read_counts pairs counts ≡ some result
    → count_at result i ≡ last_count (name_at result_tbl i) pairs (count_at counts i)
unfolding read_counts
read_counts-last_count [] counts result i _ _ e = ap (λ c. count_at c i) (cc)
read_counts-last_count ((name, count) ∷ rest) counts result i len inside e =
    elim (Bool-cases (matches result_tbl name)) [
      | inr bad ↦ let e' = rw bad at e in absurd (cc)
      | inl good ↦
          let e' = rw good at e in
          read_counts-last_count rest (set_counts result_tbl name count counts) result i
            (length-set_counts result_tbl name count counts ∙ len) inside e'
          ∙ ap (last_count (name_at result_tbl i) rest)
              (count_at-set_counts result_tbl name count counts i len inside)
    ]

-- A pair whose name is not in the table.
abbrev pub HasBad : List (Text × ℕ) → Type 0
HasBad [] = ⊥
HasBad ((name, count) ∷ rest) = (matches result_tbl name ≡ false) ⊎ HasBad rest

-- A name that is in no place of the table ends the program.
pub read_counts-none :
    (pairs : List (Text × ℕ)) (counts : List ℕ) → HasBad pairs → read_counts pairs counts ≡ none
unfolding read_counts
read_counts-none [] counts h = absurd h
read_counts-none ((name, count) ∷ rest) counts (inl bad) = rw bad refl
read_counts-none ((name, count) ∷ rest) counts (inr later) =
    elim (Bool-cases (matches result_tbl name)) [
      | inl good ↦ rw good (read_counts-none rest (set_counts result_tbl name count counts) later)
      | inr bad ↦ rw bad refl
    ]

-- Every code has a name of the table.
pub get_status_name-result_tbl :
    (code : ℤ) → (k : ℕ) × (k < max_results) × (get_status_name code ≡ name_at result_tbl k)
unfolding get_status_name
get_status_name-result_tbl (negsuc n) = (other, omega arith, refl)
get_status_name-result_tbl (pos n) = elim (Bool-cases (ltb (max_results - 1) n)) [
  | inl large ↦ (other, omega arith, rw large refl)
  | inr small ↦ (n, ground arith, rw small refl)
]
