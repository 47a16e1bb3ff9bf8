-- ===== src/Stf/Timeout.antt =====
-- The time limit of stf_timeout.c: parse_timeout and parse_value.
pub mod Limits
pub mod Stale
pub mod Printed
use zfstest.Prelude.{
  ℕ, ◌+◌, ◌*◌, ◌%◌, true, false, ◌&&◌, ◌||◌, Bool, List, [], ◌∷◌, ◌++◌, ◌==◌, if◌then◌else◌,
}
use zfstest.Stf.Number.{Text, Parsed, word, int_max, int_min, strtol}

-- `garbage` is what an unset variable of this type may hold beside the enumerators.
pub data Units : Type 0 where
  hours minutes seconds none garbage : Units

-- What the program prints on stderr; `unrecognized` has the character.
pub data Complaint : Type 0 where
  exceeds : Complaint
  unrecognized : ℕ → Complaint
  zero_duration : Complaint
  bad_limit : Complaint

pub record Value : Type 0 where
  pub value : ℕ
  pub units : Units
  pub rest : Text
  pub complaints : List Complaint

abbrev range_complaint : Parsed → List Complaint
range_complaint p =
    if (p.value == int_max || p.value == int_min) && p.out_of_range then exceeds ∷ [] else []

-- The switch on the character behind the number. `stale` is what the variable for the units held
-- before: the default branch does not set it.
unfoldable pub set_units : Units → Parsed → Text → Value
set_units stale p [] = record {
  value = p.value;
  units = none;
  rest = [];
  complaints = range_complaint p;
}
set_units stale p (c ∷ s) =
    if c == b'h'
    then record { value = p.value; units = hours; rest = s; complaints = range_complaint p }
    else if c == b'm'
    then record { value = p.value; units = minutes; rest = s; complaints = range_complaint p }
    else if c == b's'
    then record { value = p.value; units = seconds; rest = s; complaints = range_complaint p }
    else record {
      value = p.value;
      units = stale;
      rest = c ∷ s;
      complaints = range_complaint p ++ unrecognized c ∷ [];
    }

unfoldable pub parse_value : Units → Text → Value
unfolding set_units
parse_value stale s = let p = strtol s in set_units stale p p.rest

abbrev pub is : Units → Units → Bool
is hours hours = true
is minutes minutes = true
is seconds seconds = true
is none none = true
is _ _ = false

-- `if (value_units == unit) { *duration += factor * value; value = parse_value(...); }`
unfoldable pub advance : Units → ℕ → ℕ × Value → ℕ × Value
unfolding parse_value
advance unit factor (duration, v) =
    if is unit v.units
    then (let next = parse_value v.units v.rest in
        (
          (duration + factor * v.value) % word,
          record next { complaints = v.complaints ++ next.complaints },
        ))
    else (duration, v)

pub record Limit : Type 0 where
  pub duration : ℕ
  pub complaints : List Complaint

unfoldable pub finish_limit : ℕ × Value → Limit
finish_limit (duration, v) =
    if is none v.units
    then (let total = (duration + v.value) % word in
        record {
          duration = total;
          complaints = v.complaints ++ (if total == 0 then zero_duration ∷ [] else []);
        })
    else record { duration = duration; complaints = v.complaints ++ bad_limit ∷ [] }

unfoldable pub parse_timeout : Units → Text → Limit
unfolding parse_value advance finish_limit
parse_timeout stale s =
    finish_limit
      (advance seconds 1 (advance minutes 60 (advance hours (60 * 60) (0, parse_value stale s))))
