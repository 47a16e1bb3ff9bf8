-- ===== src/Hashtable/RoundTrip.antt =====
-- `ht_locate_key` after `ht_insert_key` and after `ht_delete_key`.
use zfstest.Prelude.{
  ℕ, suc, ◌≤◌, ◌<◌, ◌≡◌, refl, ◌≢◌, false, true, ◌∙◌, List, [], ◌∷◌, has, some, arith, length, pos,
  Bool-cases, inl, inr, Bool, subst, sym, if◌then◌else◌,
}
use zfstest.Hashtable.Lock.{unlocked, enoent}
use zfstest.Hashtable.Data.{Ptr, null, Key, World}
use zfstest.Hashtable.Stats.Bumps.{IsIdle}
use zfstest.Hashtable.Locate.{matches, home, locate_key}
use zfstest.Hashtable.Locate.Laws.{locate_key-find}
use zfstest.Hashtable.Insert.{insert_key_with}
use zfstest.Hashtable.Insert.Steps.{Resize}
use zfstest.Hashtable.Insert.Laws.{
  NeverFull, Inserts, insert_second, taken, insert_key-vacant, insert_key-chained,
}
use zfstest.Hashtable.Delete.{delete_key}
use zfstest.Hashtable.Delete.Contents.{drop_match}
use zfstest.Hashtable.Delete.Laws.{Deletes, delete_key-inner, delete_key-head}
use zfstest.Hashtable.Chain.{IsChain}
use zfstest.Hashtable.Chain.Contents.{Pairs, same_key, occurs, find, get_or, erase, contents}
use zfstest.Hashtable.Steady.{home-Steady, same_key-Steady}

-- Looking for a key is looking for any key that the test takes for it.
find_congr : (f g : Key → Bool) (kvs : Pairs) → ((k : Key) → f k ≡ g k) → find f kvs ≡ find g kvs
unfolding find
find_congr f g [] same = refl
find_congr f g ((k, v) ∷ kvs) same = rw (same k, find_congr f g kvs same)

-- The pair that was put second is the first with its key if the first pair has another.
find-insert_second :
    (test : Key → Bool) (key : Key) (datum : Ptr) (kvs : Pairs)
    → test key ≡ true
    → occurs test kvs ≡ false
    → find test (insert_second (key, datum) kvs) ≡ some datum
unfolding find occurs
find-insert_second test key datum [] own fresh = rw own
find-insert_second test key datum ((k, v) ∷ kvs) own fresh =
    let other : test k ≡ false = ground arith in rw (other, own)

module _ (fuel : ℕ) (resize : Resize) (key : Key) (datum : Ptr) (w : World) where
  -- The key is inserted and found again.
  abbrev pub FoundAfter : Type 0
  FoundAfter =
      (v u : World) × (insert_key_with (suc fuel) resize key datum w ≡ some (pos 0, v))
      × (locate_key (suc fuel) key v ≡ some (datum, u))

module _ (fuel : ℕ) (resize : Resize) (key : Key) (datum : Ptr) (w : World)
    (own : w.ht.key_compare key key w.ht.keysize ≡ 0) where
  located :
      (v : World) (ps qs : List Ptr)
      → Inserts w v key datum (home key w) ps qs
      → occurs (same_key w key) (contents w.entries ps) ≡ false
      → length qs < suc fuel
      → insert_key_with (suc fuel) resize key datum w ≡ some (pos 0, v)
      → FoundAfter fuel resize key datum w
  located v ps qs i fresh enough done =
      let at = home-Steady i.steady key in
      let c = subst (λ b. IsChain v.entries b (b ∷ qs)) (sym at) i.chain in
      let (u, e, _) = locate_key-find (suc fuel) key v i.steady.idle qs c enough in
      let own_test : same_key w key key ≡ true = rw own in
      (
        v,
        u,
        done,
        e
            ∙ rw (
              at,
              i.pairs,
              find_congr (same_key v key) (same_key w key)
                  (insert_second (key, datum) (contents w.entries ps))
                  (same_key-Steady i.steady key),
              find-insert_second (same_key w key) key datum (contents w.entries ps) own_test fresh,
            ),
      )

  -- `ht_locate_key` after `ht_insert_key` into an empty slot whose lock is free, whose `next` is
  -- NULL and whose address is not NULL returns the data put in, if the key compares as equal to
  -- itself and no lock of the head is held.
  pub locate_key-insert_key_vacant :
      IsIdle w
      → (w.entries (home key w)).occupied ≡ false
      → (w.entries (home key w)).rwlock ≡ unlocked
      → (w.entries (home key w)).next ≡ null
      → home key w ≢ null
      → FoundAfter fuel resize key datum w
  unfolding occurs
  locate_key-insert_key_vacant idle empty free last ne =
      let (v, done, i, _) =
        insert_key-vacant (suc fuel) resize key datum w idle empty free last ne in
      located v [] [] i refl (omega arith) done

  -- `ht_locate_key` after `ht_insert_key` into an occupied slot returns the data put in: the
  -- insertion returns 0 and the search finds it, if the key compares as equal to itself and to no
  -- key of the chain, no lock of the head is held, the chain is well formed with its locks free
  -- and shorter than the fuel, the threshold function, if there is one, always answers 0, and the
  -- first free entry exists, is off the chain and has its lock free.
  pub locate_key-insert_key :
      (ps : List Ptr)
      → IsIdle w
      → IsChain w.entries (home key w) (home key w ∷ ps)
      → length ps < fuel
      → occurs (same_key w key) (contents w.entries (home key w ∷ ps)) ≡ false
      → NeverFull w
      → w.ht.freechain ≢ null
      → has w.ht.freechain (home key w ∷ ps) ≡ false
      → (w.entries w.ht.freechain).rwlock ≡ unlocked
      → FoundAfter fuel resize key datum w
  locate_key-insert_key ps idle c enough fresh never ready off loose =
      let free : taken fuel resize key datum w idle ps c enough ≡ false = ground arith in
      let (v, done, i, _) =
        insert_key-chained fuel resize key datum w idle ps c enough free never ready off loose in
      located v (home key w ∷ ps) (w.ht.freechain ∷ ps) i fresh (omega arith) done

occurs_congr :
    (f g : Key → Bool) (kvs : Pairs) → ((k : Key) → f k ≡ g k) → occurs f kvs ≡ occurs g kvs
unfolding occurs
occurs_congr f g [] same = refl
occurs_congr f g ((k, v) ∷ kvs) same = rw (same k, occurs_congr f g kvs same)

module _ (fuel : ℕ) (garbage : Ptr) (key : Key) (w : World) (kvs : Pairs) where
  -- The key is deleted and looked for again, where `kvs` are the pairs of its chain.
  abbrev pub GoneAfter : Type 0
  GoneAfter =
      (r : Ptr) × (v u : World) × (delete_key fuel garbage key w ≡ some (r, v))
      × (locate_key fuel key v
          ≡ some (get_or (find (same_key w key) (erase (same_key w key) kvs)) null, u))
      × (u.errno ≡ (if occurs (same_key w key) (erase (same_key w key) kvs) then 0 else enoent))

module _ (fuel : ℕ) (garbage : Ptr) (key : Key) (w : World) where
  located_again :
      (r : Ptr) (v : World) (ps qs : List Ptr)
      → Deletes w v key (home key w) ps qs
      → length qs < fuel
      → delete_key fuel garbage key w ≡ some (r, v)
      → GoneAfter fuel garbage key w (contents w.entries (home key w ∷ ps))
  located_again r v ps qs d enough done =
      let at = home-Steady d.steady key in
      let c = subst (λ b. IsChain v.entries b (b ∷ qs)) (sym at) d.chain in
      let (u, e, l) = locate_key-find fuel key v d.steady.idle qs c enough in
      let kvs = erase (same_key w key) (contents w.entries (home key w ∷ ps)) in
      let same = same_key-Steady d.steady key in
      (
        r,
        v,
        u,
        done,
        e ∙ rw (at, d.pairs, find_congr (same_key v key) (same_key w key) kvs same),
        l.errno ∙ rw (at, d.pairs, occurs_congr (same_key v key) (same_key w key) kvs same),
      )

  length-drop_match : (ps : List Ptr) → length (drop_match w key ps) ≤ length ps
  length-drop_match [] = omega arith
  length-drop_match (d ∷ ps) = ground (arith, length-drop_match ps)

  -- `ht_locate_key` after `ht_delete_key`, in a slot with a chain of two or more entries, no
  -- longer than the fuel, its locks and those of the head free: both return, and the search gives
  -- the data of the first pair with the key among the pairs less the first such one, or NULL,
  -- with `errno` 0 or ENOENT accordingly.
  pub locate_key-delete_key :
      (n : Ptr) (ns : List Ptr)
      → IsIdle w
      → IsChain w.entries (home key w) (home key w ∷ n ∷ ns)
      → length (n ∷ ns) < fuel
      → GoneAfter fuel garbage key w (contents w.entries (home key w ∷ n ∷ ns))
  locate_key-delete_key n ns idle c enough = elim (Bool-cases (matches w key (home key w))) [
    | inl hit ↦
        let (v, done, d) = delete_key-head fuel garbage key w idle n ns c enough hit in
        located_again (w.entries n).datum v (n ∷ ns) ns d (omega arith) done
    | inr miss ↦
        let (r, v, done, _, d) = delete_key-inner fuel garbage key w idle (n ∷ ns) c enough miss in
        let shorter = length-drop_match (n ∷ ns) in
        located_again r v (n ∷ ns) (drop_match w key (n ∷ ns)) d (omega arith) done
  ]
