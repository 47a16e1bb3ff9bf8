-- ===== src/Tests/Whole.antt =====
-- A whole table, and the theorems on whole tables applied to it.
use zfstest.Prelude.{
  pos, negsuc, ℕ, zero, suc, ◌+◌, ◌<◌, ◌≡◌, refl, true, false, [], ◌∷◌, has, some, arith,
  if◌then◌else◌, ◌==◌,
}
use zfstest.Hashtable.Data.{Ptr, null, Key, World}
use zfstest.Hashtable.Lock.{unset, unlocked, enoent, lock_init}
use zfstest.Hashtable.Hash.{hash_loop, hash_bytes, bcmp}
use zfstest.Hashtable.Hash.Laws.{hash_bytes-bound, evaluate_threshold_default-zero}
use zfstest.Hashtable.Locate.{home, locate_key}
use zfstest.Hashtable.Chain.Contents.{same_key, occurs, find, get_or, erase}
use zfstest.Hashtable.Table.{Layout, IsTable, IsBucket, index, view}
use zfstest.Hashtable.Table.Delete.{IsDeleted, delete_key-IsTable}
use zfstest.Hashtable.Table.Create.{empty, create-IsTable}
use zfstest.Hashtable.Create.{create}
use zfstest.Hashtable.Create.Laws.{HasRoom, created}
use zfstest.Hashtable.Table.Grow.{IsPlaced}
use zfstest.Hashtable.Table.Grow.Insert.{insert_key-IsTable_grown}
use zfstest.Hashtable.Insert.Grow.{HasSlab}
use zfstest.Hashtable.Insert.{insert_key_with}
use zfstest.Hashtable.Insert.Full.{insert_key-full}
use zfstest.Hashtable.Chain.{IsChain}
use zfstest.Hashtable.Destroy.{destroy}
use zfstest.Hashtable.Destroy.Laws.{wiped, destroy-created}
use zfstest.Hashtable.Table.Locate.{locate_key-view}
use zfstest.Hashtable.Table.Insert.{IsInserted, insert_key-IsTable}
use zfstest.Tests.Tables.{
  key, chained, no_resize, chained-IsIdle, chained-IsCounting, head_in, fresh, fresh-HasRoom,
}

abbrev layout : Layout
layout = record {
  chain = λ i. if i == 1 then 11 ∷ 20 ∷ [] else [];
  free = 21 ∷ 22 ∷ [];
  owner = λ a. if a == 10 then 0 else (if a == 11 then 1 else (if a == 20 then 1 else 2));
}

chained-IsBucket : (i : ℕ) → i < 2 → IsBucket chained.entries (10 + i) (layout.chain i)
chained-IsBucket zero h = (refl, refl, refl)
chained-IsBucket (suc zero) h =
    (refl, omega arith, refl, refl, refl, (refl, omega arith, refl, refl, refl, refl))
chained-IsBucket (suc (suc i)) h = absurd (omega arith)

chained_owned :
    (i : ℕ) (a : Ptr) → i < 2 → has a ((10 + i) ∷ layout.chain i) ≡ true → layout.owner a ≡ i
chained_owned zero a h o = ground arith
chained_owned (suc zero) a h o = ground arith
chained_owned (suc (suc i)) a h o = absurd (omega arith)

chained-IsTable : IsTable chained layout
chained-IsTable = record {
  idle = chained-IsIdle;
  base = omega arith;
  spread = λ k. hash_bytes-bound k 1 (omega arith);
  buckets = chained-IsBucket;
  owned = chained_owned;
  free = (refl, omega arith, refl, refl, (refl, omega arith, refl, refl, refl));
  unowned = λ a h. ground arith;
}

insert_key-IsTable_example : IsInserted 5 no_resize (key 5) 555 chained layout
unfolding hash_bytes hash_loop bcmp occurs
insert_key-IsTable_example =
    insert_key-IsTable 5 no_resize (key 5) 555 chained layout 21 (22 ∷ []) chained-IsTable refl
      (omega arith) refl evaluate_threshold_default-zero

locate_key-view_example :
    (v : World) × (locate_key 6 (key 3) chained
      ≡ some (
        get_or (find (same_key chained (key 3)) (view chained layout (index (key 3) chained))) null,
        v,
      ))
    × IsTable v layout
    × ((j : ℕ) → view v layout j ≡ view chained layout j)
    × (v.errno ≡ (
        if occurs (same_key chained (key 3)) (view chained layout (index (key 3) chained))
        then 0
        else enoent))
unfolding hash_bytes hash_loop
locate_key-view_example = locate_key-view 6 (key 3) chained layout chained-IsTable (omega arith)

delete_key-IsTable_example : IsDeleted 6 77 (key 1) chained layout
unfolding hash_bytes hash_loop bcmp erase
delete_key-IsTable_example =
    delete_key-IsTable 6 77 (key 1) chained layout chained-IsTable (omega arith)
      (λ e. absurd (ground arith))

create-IsTable_example :
    (create (head_in unset) [] 4 1 false false fresh
      ≡ (true, created (head_in unset) [] 4 1 false false fresh))
    × IsTable (created (head_in unset) [] 4 1 false false fresh) (empty 32)
    × ((k : Key)
        → view
            (created (head_in unset) [] 4 1 false false fresh)
            (empty 32)
            (index k (created (head_in unset) [] 4 1 false false fresh))
          ≡ [])
create-IsTable_example = create-IsTable (head_in unset) [] 4 1 false false fresh fresh-HasRoom

-- The same table with an empty free chain.
abbrev full : World
full = record chained { ht = record chained.ht { freechain = null } }

abbrev full_layout : Layout
full_layout = record layout { free = [] }

full-IsTable : IsTable full full_layout
full-IsTable = record {
  idle = record {
    tablelock = refl;
    freelock = refl;
    resizemutex = refl;
    counting = chained-IsCounting;
  };
  base = omega arith;
  spread = λ k. hash_bytes-bound k 1 (omega arith);
  buckets = chained-IsBucket;
  owned = chained_owned;
  free = refl;
  unowned = λ a h. absurd (ground arith);
}

full-IsPlaced : IsPlaced full full_layout
full-IsPlaced = record { table = omega arith; entries = λ a h. ground arith }

full-HasSlab : HasSlab 2 full
unfolding lock_init
full-HasSlab = record {
  slots = omega arith;
  base = omega arith;
  room = omega arith;
  fresh = λ a. ground arith;
}

full_chain : full_layout.chain (index (key 5) full) ≡ home (key 5) full ∷ 20 ∷ []
unfolding hash_bytes hash_loop
full_chain = refl

insert_key-IsTable_grown_example : IsInserted 6 no_resize (key 5) 555 full full_layout
unfolding hash_bytes hash_loop bcmp occurs
insert_key-IsTable_grown_example =
    insert_key-IsTable_grown 5 no_resize (key 5) 555 full full_layout (20 ∷ []) full-IsTable
      full-IsPlaced full-HasSlab refl full_chain (omega arith) refl evaluate_threshold_default-zero

-- And without memory.
abbrev starved : World
starved = record full { limit = 30 }

starved-IsChain : IsChain starved.entries (home (key 5) starved) (home (key 5) starved ∷ 20 ∷ [])
unfolding hash_bytes hash_loop
starved-IsChain = (refl, omega arith, refl, refl, refl, (refl, omega arith, refl, refl, refl, refl))

insert_key-full_example :
    (v : World) × (insert_key_with 6 no_resize (key 5) 555 starved ≡ some (negsuc 0, v))
    × (v.errno ≡ 0)
    × (v.entries ≡ chained.entries)
    × (v.ht.freechain ≡ null)
unfolding hash_bytes hash_loop bcmp occurs
insert_key-full_example =
    insert_key-full 5 no_resize (key 5) 555 starved full-IsTable.idle (20 ∷ []) starved-IsChain
      (omega arith) (omega arith) (omega arith) refl refl

abbrev zeroed : World
zeroed = record fresh { slabs = λ p. record { next = null; entry = null; entrycount = 0 } }

zeroed-HasRoom : HasRoom (head_in unset) 4 zeroed
zeroed-HasRoom = record {
  slots = omega arith;
  base = omega arith;
  room = omega arith;
  head = fresh-HasRoom.head;
  entries = fresh-HasRoom.entries;
}

destroy-created_example :
    (u : World) × (create (head_in unset) [] 4 1 false false zeroed
      ≡ (true, created (head_in unset) [] 4 1 false false zeroed))
    × (destroy 2 (created (head_in unset) [] 4 1 false false zeroed) ≡ some (pos 0, u))
    × (u.entries ≡ wiped 32 4 (created (head_in unset) [] 4 1 false false zeroed).entries)
    × (u.ht.slabs ≡ null)
    × (u.ht.tablelock ≡ unset)
    × (u.ht.freelock ≡ unlocked)
    × (u.ht.resizemutex ≡ unlocked)
destroy-created_example =
    destroy-created (head_in unset) 4 1 false false zeroed zeroed-HasRoom refl 0
