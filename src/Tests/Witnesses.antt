-- ===== src/Tests/Witnesses.antt =====
-- Each theorem with hypotheses, applied where they hold.
use zfstest.Prelude.{
  ℕ, ◌<◌, ◌≡◌, refl, false, true, [], ◌∷◌, some, pos, negsuc, arith, if◌then◌else◌, ◌==◌,
}
use zfstest.Hashtable.Lock.{unset, exclusive, failing, eexist, eperm}
use zfstest.Hashtable.Data.{null, World}
use zfstest.Hashtable.Hash.{hash_loop, hash_bytes, bcmp}
use zfstest.Hashtable.Hash.Laws.{hash_bytes-bcmp, evaluate_threshold_default-zero}
use zfstest.Hashtable.Create.{create}
use zfstest.Hashtable.Create.Laws.{created, create-insert_key}
use zfstest.Hashtable.Locate.{home, locate_key}
use zfstest.Hashtable.Locate.Found.{probed, lookup_in, locate_key-lookup_in}
use zfstest.Hashtable.Locate.Laws.{Locates, locate_key-find}
use zfstest.Hashtable.Insert.{insert_key_with}
use zfstest.Hashtable.Insert.Laws.{Inserts, NeverFull, insert_key-chained, insert_key-duplicate}
use zfstest.Hashtable.Insert.Refused.{insert_key-refused}
use zfstest.Hashtable.Delete.{delete_key}
use zfstest.Hashtable.Delete.Removed.{remove_first, delete_key-remove_first}
use zfstest.Hashtable.Delete.Contents.{drop_match}
use zfstest.Hashtable.Delete.Laws.{Deletes, delete_key-inner, delete_key-head, delete_key-alone}
use zfstest.Hashtable.RoundTrip.{
  FoundAfter, GoneAfter, locate_key-insert_key, locate_key-delete_key,
}
use zfstest.Hashtable.Sweep.{sweep}
use zfstest.Hashtable.Sweep.Laws.{sweep-chain}
use zfstest.Hashtable.Stats.Bumps.{bump}
use zfstest.Hashtable.Stats.{CounterName}
use zfstest.Hashtable.Chain.{IsChain}
use zfstest.Hashtable.Chain.Contents.{same_key, occurs, find, get_or, contents}
use zfstest.Tests.Tables.{
  fresh-HasRoom, head_in, entry, key, chained, single, fresh, no_resize, chained-IsCounting,
  chained-IsIdle,
}

ready_5 : IsChain chained.entries (home (key 5) chained) (home (key 5) chained ∷ 20 ∷ [])
unfolding hash_bytes hash_loop
ready_5 = (refl, omega arith, refl, refl, refl, (refl, omega arith, refl, refl, refl, refl))

ready_3 : IsChain chained.entries (home (key 3) chained) (home (key 3) chained ∷ 20 ∷ [])
unfolding hash_bytes hash_loop
ready_3 = (refl, omega arith, refl, refl, refl, (refl, omega arith, refl, refl, refl, refl))

ready_1 : IsChain chained.entries (home (key 1) chained) (home (key 1) chained ∷ 20 ∷ [])
unfolding hash_bytes hash_loop
ready_1 = (refl, omega arith, refl, refl, refl, (refl, omega arith, refl, refl, refl, refl))

ready_single : IsChain single.entries (home (key 1) single) (home (key 1) single ∷ [])
unfolding hash_bytes hash_loop
ready_single = (refl, omega arith, refl, refl, refl, refl)

chained-NeverFull : NeverFull chained
chained-NeverFull = evaluate_threshold_default-zero

fresh_5 :
    occurs (same_key chained (key 5)) (contents chained.entries (home (key 5) chained ∷ 20 ∷ []))
    ≡ false
unfolding hash_bytes hash_loop occurs bcmp
fresh_5 = refl

insert_key-chained_example :
    (v : World) × (insert_key_with 6 no_resize (key 5) 555 chained ≡ some (pos 0, v))
    × Inserts chained v
        (key 5)
        555
        (home (key 5) chained)
        (home (key 5) chained ∷ 20 ∷ [])
        (21 ∷ 20 ∷ [])
    × (v.ht.freechain ≡ 22)
unfolding hash_bytes hash_loop occurs bcmp
insert_key-chained_example =
    insert_key-chained 5 no_resize (key 5) 555 chained chained-IsIdle (20 ∷ []) ready_5
      (omega arith) refl chained-NeverFull (omega arith) refl refl

delete_key-inner_example :
    (r : ℕ) × (v : World) × (delete_key 6 77 (key 3) chained ≡ some (r, v))
    × (r
        ≡ get_or
            (find
              (same_key chained (key 3))
              (contents chained.entries (home (key 3) chained ∷ 20 ∷ [])))
            null)
    × Deletes chained v
        (key 3)
        (home (key 3) chained)
        (20 ∷ [])
        (drop_match chained (key 3) (20 ∷ []))
unfolding hash_bytes hash_loop bcmp
delete_key-inner_example =
    delete_key-inner 6 77 (key 3) chained chained-IsIdle (20 ∷ []) ready_3 (omega arith) refl

locate_key-find_example : Locates 6 (key 3) (home (key 3) chained ∷ 20 ∷ []) chained
locate_key-find_example =
    locate_key-find 6 (key 3) chained chained-IsIdle (20 ∷ []) ready_3 (omega arith)

locate_key-insert_key_example : FoundAfter 5 no_resize (key 5) 555 chained
unfolding hash_bytes hash_loop occurs bcmp
locate_key-insert_key_example =
    locate_key-insert_key 5 no_resize (key 5) 555 chained refl (20 ∷ []) chained-IsIdle ready_5
      (omega arith) fresh_5 chained-NeverFull (omega arith) refl refl

locate_key-delete_key_example :
    GoneAfter 6 77 (key 1) chained (contents chained.entries (home (key 1) chained ∷ 20 ∷ []))
locate_key-delete_key_example =
    locate_key-delete_key 6 77 (key 1) chained 20 [] chained-IsIdle ready_1 (omega arith)

create-insert_key_example :
    (create (head_in unset) [] 4 1 false false fresh
      ≡ (true, created (head_in unset) [] 4 1 false false fresh))
    × FoundAfter 5 no_resize (key 3) 333 (created (head_in unset) [] 4 1 false false fresh)
create-insert_key_example =
    create-insert_key (head_in unset) [] 4 1 false false fresh fresh-HasRoom (key 3) 5 no_resize 333

insert_key-duplicate_example :
    (v : World) × (insert_key_with 6 no_resize (key 3) 999 chained ≡ some (negsuc 0, v))
    × (v.errno ≡ eexist)
    × (v.entries ≡ chained.entries)
    × (v.ht.freechain ≡ 21)
unfolding hash_bytes hash_loop occurs bcmp
insert_key-duplicate_example =
    insert_key-duplicate 5 no_resize (key 3) 999 chained chained-IsIdle (20 ∷ []) ready_3
      (omega arith) refl

locate_key-lookup_in_example :
    locate_key 6 (key 3) chained
    ≡ some (lookup_in (key 3) (home (key 3) chained ∷ 20 ∷ []) 0 (probed chained))
locate_key-lookup_in_example =
    locate_key-lookup_in 6 (key 3) (20 ∷ []) chained chained-IsIdle ready_3 (omega arith)

delete_key-remove_first_example :
    delete_key 6 77 (key 3) chained
    ≡ some (
        remove_first
          (key 3)
          (home (key 3) chained)
          (20 ∷ [])
          1
          (probed (bump CounterName.deletes 1 chained)))
unfolding hash_bytes hash_loop bcmp
delete_key-remove_first_example =
    delete_key-remove_first 6 77 (key 3) (20 ∷ []) chained chained-IsIdle ready_3 (omega arith) refl

delete_key-head_example :
    (v : World) × (delete_key 6 77 (key 1) chained ≡ some (333, v))
    × Deletes chained v (key 1) (home (key 1) chained) (20 ∷ []) []
unfolding hash_bytes hash_loop bcmp
delete_key-head_example =
    delete_key-head 6 77 (key 1) chained chained-IsIdle 20 [] ready_1 (omega arith) refl

delete_key-alone_example :
    (v : World) × (delete_key 6 77 (key 1) single ≡ some (111, v))
    × ((v.entries (home (key 1) single)).occupied ≡ false)
    × ((v.entries (home (key 1) single)).rwlock ≡ exclusive)
unfolding hash_bytes hash_loop bcmp
delete_key-alone_example =
    delete_key-alone 6 77 (key 1) single chained-IsIdle ready_single (omega arith) refl

-- The chain hangs on the first slot.
abbrev first_chained : World
first_chained = record chained {
  entries = λ p. if p == 10 then entry 20 (key 2) 222 true else entry null (key 4) 444 true;
}

sweep-chain_example :
    (v : World) × (sweep 6 first_chained ≡ some (eperm, v)) × ((v.entries 20).rwlock ≡ exclusive)
sweep-chain_example =
    sweep-chain 5 first_chained chained-IsIdle 20 (omega arith) (refl, refl) refl (omega arith)
      (omega arith) refl

abbrev refusing : World
refusing = record chained { ht = record chained.ht { tablelock = failing 3 } }

insert_key-refused_example :
    (v : World) × (insert_key_with 6 no_resize (key 5) 555 refusing ≡ some (negsuc 1, v))
    × (v.errno ≡ 0)
    × (v.entries ≡ chained.entries)
insert_key-refused_example =
    insert_key-refused 6 (key 5) refusing 3 refl chained-IsCounting no_resize 555

hash_bytes-bcmp_example :
    (hash_bytes (1 ∷ 2 ∷ []) 1 8 ≡ hash_bytes (1 ∷ 5 ∷ []) 1 8) × (hash_bytes (1 ∷ 2 ∷ []) 1 8 < 8)
unfolding bcmp
hash_bytes-bcmp_example = hash_bytes-bcmp (1 ∷ 2 ∷ []) (1 ∷ 5 ∷ []) 1 8 (omega arith) refl
