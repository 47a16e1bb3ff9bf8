-- ===== src/Stf/Results.antt =====
-- The result codes of stf.h, get_status_name of libstf.c, and the arguments of stf_jnl_totals.c.
pub mod Laws
use zfstest.Prelude.{
  ℕ, zero, suc, ◌-◌, ◌%◌, Bool, true, false, ◌&&◌, List, [], ◌∷◌, ◌++◌, ◌==◌, ltb, leb,
  if◌then◌else◌, Option, none, some, ℤ, pos, negsuc,
}
use zfstest.Stf.Number.{Text, codes}

abbrev pub result_tbl : List Text
result_tbl =
    codes "PASS"
    ∷ codes "FAIL"
    ∷ codes "UNRESOLVED"
    ∷ codes "NOTINUSE"
    ∷ codes "UNSUPPORTED"
    ∷ codes "UNTESTED"
    ∷ codes "UNINITIATED"
    ∷ codes "NORESULT"
    ∷ codes "WARNING"
    ∷ codes "TIMED_OUT"
    ∷ codes "OTHER"
    ∷ []

abbrev pub max_results : ℕ
max_results = 11

abbrev pub timed_out : ℕ
timed_out = 9

abbrev pub other : ℕ
other = 10

abbrev pub noresult : ℕ
noresult = 7

-- An element of a table; reads outside of it do not occur.
abbrev pub name_at : List Text → ℕ → Text
name_at [] i = []
name_at (x ∷ xs) zero = x
name_at (x ∷ xs) (suc i) = name_at xs i

unfoldable pub get_status_name : ℤ → Text
get_status_name (pos n) =
    if ltb (max_results - 1) n then name_at result_tbl other else name_at result_tbl n
get_status_name (negsuc _) = name_at result_tbl other

abbrev pub same_text : Text → Text → Bool
same_text [] [] = true
same_text [] (d ∷ t) = false
same_text (c ∷ s) [] = false
same_text (c ∷ s) (d ∷ t) = (c == d) && same_text s t

-- `result_array`, one count for each name of the table, and the loop that sets one of them.
unfoldable pub set_counts : List Text → Text → ℕ → List ℕ → List ℕ
set_counts [] name count counts = counts
set_counts (x ∷ xs) name count [] = []
set_counts (x ∷ xs) name count (n ∷ counts) =
    (if same_text name x then count else n) ∷ set_counts xs name count counts

unfoldable pub matches : List Text → Text → Bool
matches [] name = false
matches (x ∷ xs) name = if same_text name x then true else matches xs name

-- Pairs of a name and a count; `none` is the exit on a name that is not valid.
unfoldable pub read_counts : List (Text × ℕ) → List ℕ → Option (List ℕ)
unfolding set_counts matches
read_counts [] counts = some counts
read_counts ((name, count) ∷ rest) counts =
    let on = read_counts rest (set_counts result_tbl name count counts) in
    if matches result_tbl name then on else none

abbrev pub zeros : List ℕ
zeros = 0 ∷ 0 ∷ 0 ∷ 0 ∷ 0 ∷ 0 ∷ 0 ∷ 0 ∷ 0 ∷ 0 ∷ 0 ∷ []
