-- ===== src/Hashtable/Stats.antt =====
-- The statistics of libhashtable.c: counters and averages, each behind its mutex.
pub mod Bumps
use zfstest.Prelude.{ℕ, ◌+◌, ◌%◌, ◌^◌, ◌==◌, ltb, if◌then◌else◌, ℤ, pos, negsuc}
use zfstest.Hashtable.Lock.{Mode, unset, lock_init, rw_wrlock, rw_unlock}
use zfstest.Hashtable.Data.{Counter, Average, Stats, World, set_errno}

-- Which statistic a pointer to one points to.
pub data CounterName : Type 0 where
  deletes errors hits inserts probes resizes slabs : CounterName

pub data AverageName : Type 0 where
  depth freechain searches : AverageName

abbrev pub get_counter : CounterName → Stats → Counter
get_counter deletes s = s.deletes
get_counter errors s = s.errors
get_counter hits s = s.hits
get_counter inserts s = s.inserts
get_counter probes s = s.probes
get_counter resizes s = s.resizes
get_counter slabs s = s.slabs

abbrev pub set_counter : CounterName → Counter → Stats → Stats
set_counter deletes k s = record s { deletes = k }
set_counter errors k s = record s { errors = k }
set_counter hits k s = record s { hits = k }
set_counter inserts k s = record s { inserts = k }
set_counter probes k s = record s { probes = k }
set_counter resizes k s = record s { resizes = k }
set_counter slabs k s = record s { slabs = k }

abbrev pub get_average : AverageName → Stats → Average
get_average depth s = s.depth
get_average freechain s = s.freechain
get_average searches s = s.searches

abbrev pub set_average : AverageName → Average → Stats → Stats
set_average depth a s = record s { depth = a }
set_average freechain a s = record s { freechain = a }
set_average searches a s = record s { searches = a }

abbrev pub put_counter : CounterName → Counter → World → World
put_counter c k w = record w { ht = record w.ht { stats = set_counter c k w.ht.stats } }

abbrev pub put_average : AverageName → Average → World → World
put_average c a w = record w { ht = record w.ht { stats = set_average c a w.ht.stats } }

-- `u_longlong_t`
abbrev pub wrap64 : ℕ → ℕ
wrap64 n = n % 2 ^ 64

unfoldable pub counter_init : Counter → ℕ × Counter
counter_init k = let (r, m) = lock_init k.mutex in (r, record { mutex = m; value = 0 })

-- The result of each mutex call goes into `errno`, also when it is 0.
unfoldable pub counter_add : CounterName → ℕ → World → ℤ × World
counter_add c delta w =
    let k = get_counter c w.ht.stats in
    let (r, m) = rw_wrlock k.mutex in
    let held = set_errno r (put_counter c (record k { mutex = m }) w) in
    let (u, m') = rw_unlock m in
    let value = wrap64 (k.value + delta) in
    let freed = set_errno u (put_counter c (record { mutex = m'; value = value }) held) in
    if r == 0 then (if u == 0 then (pos 0, freed) else (negsuc 1, freed)) else (negsuc 1, held)

unfoldable pub average_init : Average → ℕ × Average
average_init a =
    let (r, m) = lock_init a.mutex in
    (r, record { mutex = m; count = 0; sum = 0; current = 0; maximum = 0 })

-- The larger of the two, as the assignments to `average->maximum` keep it.
abbrev pub raise : ℕ → ℕ → ℕ
raise maximum n = if ltb maximum n then n else maximum

-- Arguments of type `longlong_t` come as their values modulo 2 ^ 64, which is how they are added
-- and compared.
unfoldable pub average_update : AverageName → ℕ → ℕ → ℕ → ℕ → World → ℤ × World
average_update c count sum current maximum w =
    let a = get_average c w.ht.stats in
    let (r, m) = rw_wrlock a.mutex in
    let held = put_average c (record a { mutex = m }) w in
    let (u, m') = rw_unlock m in
    let freed =
      put_average c
        (record {
          mutex = m';
          count = wrap64 (a.count + count);
          sum = wrap64 (a.sum + sum);
          current = current;
          maximum = raise (raise a.maximum maximum) current;
        })
        held in
    if r == 0 then (if u == 0 then (pos 0, freed) else (negsuc 1, freed)) else (negsuc 1, held)

unfoldable pub average_increment : AverageName → ℕ → World → ℤ × World
average_increment c current w =
    let a = get_average c w.ht.stats in
    let (r, m) = rw_wrlock a.mutex in
    let held = put_average c (record a { mutex = m }) w in
    let (u, m') = rw_unlock m in
    let freed =
      put_average c
        (record {
          mutex = m';
          count = wrap64 (a.count + 1);
          sum = wrap64 (a.sum + current);
          current = current;
          maximum = raise a.maximum current;
        })
        held in
    if r == 0 then (if u == 0 then (pos 0, freed) else (negsuc 1, freed)) else (negsuc 1, held)
