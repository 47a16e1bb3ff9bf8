-- ===== src/Stf/Journal/Session/Framed.antt =====
-- The two lines that an assertion has in the journal, in full.
use zfstest.Prelude.{
  ℕ, zero, suc, pos, negsuc, if◌then◌else◌, ◌+◌, ◌-◌, ◌≤◌, Bool-cases, inl, inr, ◌≡◌, refl, List,
  [], ◌∷◌, ◌++◌, ltb, length, take, some, ℤ, arith, sym,
}
use zfstest.Stf.Number.{Text, codes}
use zfstest.Stf.Decimal.{decimal}
use zfstest.Stf.Results.{get_status_name, name_at}
use zfstest.Stf.Context.{maxchar}
use zfstest.Stf.Journal.{System, Vars, World}
use zfstest.Stf.Journal.Entry.{build_id, set_jsubid, assert_start_entry, assert_end_entry}

-- The ids of an assertion as they are to stand behind the name of the test: each with its marks,
-- and nothing where there is none.
abbrev pub colon : Text → Text
colon [] = []
colon (c ∷ s) = b':' ∷ c ∷ s

abbrev pub parens : Text → Text
parens [] = []
parens (c ∷ s) = b'(' ∷ c ∷ s ++ b')' ∷ []

build_id-marks : (sub arg : Text) → build_id sub arg ≡ colon sub ++ parens arg
unfolding build_id
build_id-marks [] [] = refl
build_id-marks [] (c ∷ arg) = ground arith
build_id-marks (d ∷ sub) [] = ground arith
build_id-marks (d ∷ sub) (c ∷ arg) = ground arith

-- The word for a result, by a scan of the words.
abbrev pub word_at : List Text → ℕ → Text
word_at [] n = codes "OTHER"
word_at (x ∷ xs) zero = x
word_at (x ∷ xs) (suc n) = word_at xs n

abbrev words : List Text
words =
    codes "PASS"
    ∷ codes "FAIL"
    ∷ codes "UNRESOLVED"
    ∷ codes "NOTINUSE"
    ∷ codes "UNSUPPORTED"
    ∷ codes "UNTESTED"
    ∷ codes "UNINITIATED"
    ∷ codes "NORESULT"
    ∷ codes "WARNING"
    ∷ codes "TIMED_OUT"
    ∷ []

abbrev pub result_word : ℤ → Text
result_word (negsuc n) = codes "OTHER"
result_word (pos n) = word_at words n

name_at-word_at :
    (ws : List Text) (n : ℕ) → n ≤ length ws → name_at (ws ++ codes "OTHER" ∷ []) n ≡ word_at ws n
name_at-word_at [] zero _ = refl
name_at-word_at [] (suc n) h = absurd (omega arith)
name_at-word_at (x ∷ ws) zero _ = refl
name_at-word_at (x ∷ ws) (suc n) h = name_at-word_at ws n (omega arith)

word_at-outside : (ws : List Text) (n : ℕ) → length ws ≤ n → word_at ws n ≡ codes "OTHER"
word_at-outside [] n _ = refl
word_at-outside (x ∷ ws) zero h = absurd (omega arith)
word_at-outside (x ∷ ws) (suc n) h = word_at-outside ws n (omega arith)

get_status_name-result_word : (result : ℤ) → get_status_name result ≡ result_word result
unfolding get_status_name
get_status_name-result_word (negsuc n) = refl
get_status_name-result_word (pos n) = elim (Bool-cases (ltb 10 n)) [
  | inl large ↦ rw large (sym (word_at-outside words n (ground arith)))
  | inr small ↦ rw small (name_at-word_at words n (ground arith))
]

-- The time of an entry, and the activity as a number with a sign.
abbrev pub stamp : System → Vars → Text
stamp sys v =
    sys.time
    ++ (b' ' ∷ (if ltb v.jact 32768 then decimal v.jact else b'-' ∷ decimal (65536 - v.jact))
        ++ codes " |\n")

-- The two lines of an assertion, and the state behind it.
abbrev pub start_text : System → ℕ → Text → Vars → Text
start_text sys pid subid v =
    codes "Assertion_Start| "
    ++ (decimal pid
        ++ (b' ' ∷ v.jasrt ++ ((colon subid ++ parens v.jargid) ++ (codes " | " ++ stamp sys v))))

abbrev pub end_text : System → ℕ → Text → ℤ → Vars → Text
end_text sys pid subid result v =
    codes "Assertion_End| "
    ++ (decimal pid
        ++ (b' ' ∷ v.jasrt
            ++ ((colon subid ++ parens v.jargid)
                ++ (codes " | " ++ (result_word result ++ (codes " | " ++ stamp sys v))))))

abbrev pub framed : System → ℕ → Text → ℤ → World → World
framed sys pid subid result w = record w {
  vars = record w.vars { jsubid = subid; jblk = 0; jseq = 0 };
  written =
      (w.written ++ (sys.fd, take 8193 (start_text sys pid subid w.vars)) ∷ [])
      ++ (sys.fd, take 8193 (end_text sys pid subid result w.vars)) ∷ [];
}

-- The same with the entries as the functions put them together.
abbrev pub entered : System → ℕ → Text → ℤ → World → World
entered sys pid subid result w =
    let v = set_jsubid subid w.vars in
    record w {
      vars = v;
      written =
          (w.written
            ++ (sys.fd, take (maxchar + 1) (assert_start_entry sys pid subid (some v))) ∷ [])
          ++ (sys.fd, take (maxchar + 1) (assert_end_entry sys pid result (some v))) ∷ [];
    }

pub entered-framed :
    (sys : System) (pid : ℕ) (subid : Text) (result : ℤ) (w : World)
    → entered sys pid subid result w ≡ framed sys pid subid result w
entered-framed sys pid subid result w =
    rw (build_id-marks subid w.vars.jargid, get_status_name-result_word result) refl
