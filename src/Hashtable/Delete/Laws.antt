-- ===== src/Hashtable/Delete/Laws.antt =====
-- The contract of `ht_delete_key`, and where the code departs from it.
use zfstest.Prelude.{
  ℕ, ◌+◌, ◌<◌, ◌≢◌, Bool-cases, inl, inr, subst, sym, ◌≡◌, refl, true, false, List, [], ◌∷◌, has,
  some, arith, length, ==_refl, ap, ◌∙◌, if◌then◌else◌,
}
use zfstest.Hashtable.Lock.{exclusive, enoent}
use zfstest.Hashtable.Data.{Ptr, null, Key, World, set_errno}
use zfstest.Hashtable.Stats.{CounterName, AverageName}
use zfstest.Hashtable.Stats.Bumps.{IsIdle, bump, tally}
use zfstest.Hashtable.Steady.{Steady, bump-IsIdle, tally-IsIdle, freechain-IsIdle}
use zfstest.Hashtable.Locate.{matches, home}
use zfstest.Hashtable.Locate.Search.{counted}
use zfstest.Hashtable.Locate.Found.{probed}
use zfstest.Hashtable.Chain.{IsChain}
use zfstest.Hashtable.Chain.Contents.{
  same_key, contents, find, get_or, erase, IsChain-frame, contents_congr,
}
use zfstest.Hashtable.Delete.{delete_key}
use zfstest.Hashtable.Delete.Removed.{delete_in, removed, delete_key-delete_in, cleared_slot}
use zfstest.Hashtable.Delete.Unlink.{unlinked, pulled}
use zfstest.Hashtable.Delete.Contents.{
  drop_match, contents-drop_match, delete_in-hit, delete_in-miss, delete_in_values,
  delete_in_outside, delete_in-IsChain, delete_in-find, unlinked-IsChain,
}

pub delete_in-head :
    (key : Key) (b n : Ptr) (ns : List Ptr) (depth : ℕ) (w : World)
    → matches w key b ≡ true
    → delete_in key null (b ∷ n ∷ ns) depth w
      ≡ ((w.entries n).datum, unlinked b n (pulled b n (counted depth w)))
unfolding delete_in removed
delete_in-head key b n ns depth w hit = rw hit

delete_in-alone :
    (key : Key) (b : Ptr) (depth : ℕ) (w : World)
    → matches w key b ≡ true
    → delete_in key null (b ∷ []) depth w ≡ ((w.entries b).datum, cleared_slot b (counted depth w))
unfolding delete_in removed
delete_in-alone key b depth w hit = rw hit

-- The state `v` holds the chain `b ∷ qs` where `w` held `b ∷ ps`, less one pair with the key, and
-- no entry off the chain has changed.
pub record Deletes (w v : World) (key : Key) (b : Ptr) (ps qs : List Ptr) : Type 0 where
  pub chain : IsChain v.entries b (b ∷ qs)
  pub pairs : contents v.entries (b ∷ qs) ≡ erase (same_key w key) (contents w.entries (b ∷ ps))
  pub others : (a : Ptr) → (if has a (b ∷ ps) then w.entries a else v.entries a) ≡ w.entries a
  pub steady : Steady w v

counted-IsIdle : (depth : ℕ) (w : World) → IsIdle w → IsIdle (counted depth w)
counted-IsIdle depth w i =
    bump-IsIdle CounterName.hits 1 (tally AverageName.searches depth w)
      (tally-IsIdle AverageName.searches depth w i)

-- Behind an entry `p` that stays, only entries, statistics and `errno` change.
delete_in-Steady :
    (key : Key) (p q : Ptr) (ps : List Ptr) (depth : ℕ) (w : World)
    → p ≢ null
    → IsChain w.entries q ps
    → IsIdle w
    → Steady w (delete_in key p ps depth w).1
unfolding delete_in
delete_in-Steady key p q [] depth w ne c idle = record {
  idle = tally-IsIdle AverageName.searches depth (set_errno enoent w) idle;
  slabs = refl;
  head = refl;
}
delete_in-Steady key p q (d ∷ ps) depth w ne c idle =
    let onward = delete_in-Steady key d (w.entries d).next ps (depth + 1) w c.1 c.5 idle in
    elim (Bool-cases (matches w key d)) [
      | inl hit ↦
          subst (λ (r : Ptr × World). Steady w r.1) (sym (delete_in-hit key p d ps depth w hit ne))
            (record {
              idle = freechain-IsIdle d (counted depth w) (counted-IsIdle depth w idle);
              slabs = refl;
              head = refl;
            })
      | inr miss ↦
          subst (λ (r : Ptr × World). Steady w r.1) (sym (delete_in-miss key p d ps depth w miss))
            onward
    ]

start-IsIdle : (w : World) → IsIdle w → IsIdle (probed (bump CounterName.deletes 1 w))
start-IsIdle w i =
    bump-IsIdle CounterName.probes 1 (bump CounterName.deletes 1 w)
      (bump-IsIdle CounterName.deletes 1 w i)

started-Steady : (w v : World) → Steady (probed (bump CounterName.deletes 1 w)) v → Steady w v
started-Steady w v s = record { idle = s.idle; slabs = s.slabs; head = s.head }

pulled-IsChain :
    (b n : Ptr) (ns : List Ptr) (w : World)
    → IsChain w.entries b (b ∷ n ∷ ns)
    → IsChain (pulled b n w).entries b (b ∷ n ∷ ns)
pulled-IsChain b n ns w (_, ne, out, free, full, rest) = rw (==_refl b) (
  refl,
  ne,
  out,
  free,
  rest.4,
  IsChain-frame w.entries (pulled b n w).entries (w.entries b).next (n ∷ ns) rest
      (λ a h. ground arith),
)

head_values :
    (b n : Ptr) (ns : List Ptr) (w : World)
    → IsChain w.entries b (b ∷ n ∷ ns)
    → contents (unlinked b n (pulled b n w)).entries (b ∷ ns) ≡ contents w.entries (n ∷ ns)
head_values b n ns w (_, ne, out, free, full, rest) =
    let es = (unlinked b n (pulled b n w)).entries in
    let here : ((es b).key ≡ (w.entries n).key) × ((es b).datum ≡ (w.entries n).datum) =
      ground arith in
    rw (here.0, here.1, contents_congr w.entries es ns (λ a h. ground arith))

module _ (fuel : ℕ) (garbage : Ptr) (key : Key) (w : World) (idle : IsIdle w) where
  abbrev start : World
  start = probed (bump CounterName.deletes 1 w)

  -- `ht_delete_key` of a key that is not that of the slot in the table: if no lock of the table
  -- head is held and the slot's entries are a chain with its locks free, no longer than the fuel,
  -- it returns the data of the first pair with the key, or NULL if there is none; the slot then
  -- holds a chain with all pairs but that one, its locks free; no entry off the old chain
  -- changes, nor does the head beyond its free chain and statistics, and no lock of it is held.
  pub delete_key-inner :
      (ps : List Ptr)
      → IsChain w.entries (home key w) (home key w ∷ ps)
      → length ps < fuel
      → matches w key (home key w) ≡ false
      → (r : Ptr) × (v : World) × (delete_key fuel garbage key w ≡ some (r, v))
        × (r ≡ get_or (find (same_key w key) (contents w.entries (home key w ∷ ps))) null)
        × Deletes w v key (home key w) ps (drop_match w key ps)
  unfolding find erase
  delete_key-inner ps c enough miss =
      let b = home key w in
      let r = delete_in key b ps 1 start in
      (
        r.0,
        r.1,
        delete_key-delete_in fuel garbage key ps w idle c enough
            ∙ ap some (delete_in-miss key null b ps 0 start miss),
        rw miss (delete_in-find key b (w.entries b).next ps 1 start c.1 c.5),
        record {
          chain = delete_in-IsChain key b ps 1 start c;
          pairs =
              contents_congr w.entries r.1.entries (b ∷ drop_match w key ps)
                (λ a h. delete_in_values key b (w.entries b).next ps 1 start a c.1 c.5)
              ∙ rw miss (
                  ap (λ kvs. ((w.entries b).key, (w.entries b).datum) ∷ kvs)
                    (contents-drop_match w key ps));
          others =
              λ a. ground (arith, delete_in_outside key b (w.entries b).next ps 1 start a c.1 c.5);
          steady =
              started-Steady w r.1 (
                delete_in-Steady key b (w.entries b).next ps 1 start c.1 c.5 (start-IsIdle w idle));
        },
      )

  -- `ht_delete_key` of the key in the table slot, from which a chain of at most fuel entries
  -- hangs, with the locks of chain and head free: the slot then holds the rest of the pairs, on a
  -- chain with its locks free, and no entry off the old chain changes, nor does the head beyond
  -- its free chain and statistics; what it returns is the data of the second entry, not of the
  -- one deleted.
  pub delete_key-head :
      (n : Ptr) (ns : List Ptr)
      → IsChain w.entries (home key w) (home key w ∷ n ∷ ns)
      → length (n ∷ ns) < fuel
      → matches w key (home key w) ≡ true
      → (v : World) × (delete_key fuel garbage key w ≡ some ((w.entries n).datum, v))
        × Deletes w v key (home key w) (n ∷ ns) ns
  unfolding erase
  delete_key-head n ns c enough hit =
      let b = home key w in
      let done = counted 0 start in
      (
        unlinked b n (pulled b n done),
        delete_key-delete_in fuel garbage key (n ∷ ns) w idle c enough
            ∙ ap some (delete_in-head key b n ns 0 start hit),
        record {
          chain = unlinked-IsChain b n ns (pulled b n done) (pulled-IsChain b n ns done c);
          pairs = rw hit (head_values b n ns done c);
          others = λ a. ground arith;
          steady = record {
            idle = freechain-IsIdle n done (counted-IsIdle 0 start (start-IsIdle w idle));
            slabs = refl;
            head = refl;
          };
        },
      )

  -- `ht_delete_key` of a key that is alone in its slot, the locks of entry and head free and fuel
  -- not 0, returns its data and marks the slot as empty, and the lock of the slot stays held for
  -- writing.
  pub delete_key-alone :
      IsChain w.entries (home key w) (home key w ∷ [])
      → 0 < fuel
      → matches w key (home key w) ≡ true
      → (v : World) × (delete_key fuel garbage key w ≡ some ((w.entries (home key w)).datum, v))
        × ((v.entries (home key w)).occupied ≡ false)
        × ((v.entries (home key w)).rwlock ≡ exclusive)
  delete_key-alone c enough hit =
      let b = home key w in
      (
        cleared_slot b (counted 0 start),
        delete_key-delete_in fuel garbage key [] w idle c enough
            ∙ ap some (delete_in-alone key b 0 start hit),
        ground arith,
        ground arith,
      )
