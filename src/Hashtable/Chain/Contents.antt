-- ===== src/Hashtable/Chain/Contents.antt =====
-- What a chain of entries stands for: its keys with their data, in order.
use zfstest.Prelude.{
  ◌≡◌, refl, Bool, true, false, ◌||◌, ◌==◌, List, [], ◌∷◌, has, Option, none, some, arith,
  if◌then◌else◌, ==_refl,
}
use zfstest.Hashtable.Data.{Ptr, Key, World}
use zfstest.Hashtable.Chain.{Heap, IsChain}

abbrev pub Pairs : Type 0
Pairs = List (Key × Ptr)

abbrev pub contents : Heap → List Ptr → Pairs
contents es [] = []
contents es (p ∷ ps) = ((es p).key, (es p).datum) ∷ contents es ps

-- The test by which a key is found.
abbrev pub same_key : World → Key → Key → Bool
same_key w key k = w.ht.key_compare k key w.ht.keysize == 0

-- Whether the key of some pair passes the test.
unfoldable pub occurs : (Key → Bool) → Pairs → Bool
occurs test [] = false
occurs test ((k, v) ∷ kvs) = test k || occurs test kvs

-- The first pair whose key passes the test.
unfoldable pub find : (Key → Bool) → Pairs → Option Ptr
find test [] = none
find test ((k, v) ∷ kvs) = if test k then some v else find test kvs

abbrev pub get_or : Option Ptr → Ptr → Ptr
get_or none p = p
get_or (some v) p = v

-- Drops the first pair whose key passes the test.
unfoldable pub erase : (Key → Bool) → Pairs → Pairs
erase test [] = []
erase test ((k, v) ∷ kvs) = if test k then kvs else (k, v) ∷ erase test kvs

-- A chain survives changes elsewhere.
pub IsChain-frame :
    (es fs : Heap) (p : Ptr) (ps : List Ptr)
    → IsChain es p ps
    → ((a : Ptr) → has a ps ≡ true → fs a ≡ es a)
    → IsChain fs p ps
IsChain-frame es fs p [] c same = c
IsChain-frame es fs p (q ∷ ps) (at, ne, out, free, full, rest) same =
    let e = same q (rw (==_refl q)) in
    (
      at,
      ne,
      out,
      rw e free,
      rw e full,
      rw e (IsChain-frame es fs (es q).next ps rest (λ a h. same a (ground arith))),
    )

-- So do its contents, where keys and data stay.
pub contents_congr :
    (es fs : Heap) (ps : List Ptr)
    → ((a : Ptr) → has a ps ≡ true → ((fs a).key ≡ (es a).key) × ((fs a).datum ≡ (es a).datum))
    → contents fs ps ≡ contents es ps
contents_congr es fs [] same = refl
contents_congr es fs (p ∷ ps) same =
    let (k, v) = same p (rw (==_refl p)) in
    rw (k, v, contents_congr es fs ps (λ a h. same a (ground arith)))
