-- ===== src/Hashtable/Delete/Removed.antt =====
-- `ht_delete_key` against walks over the list of entries: `delete_in` does what the code does, also
-- in the slot of the table, where it returns the data of the entry pulled up, and where an entry that
-- is alone keeps its lock held; `remove_first` does what is meant, behind the slot.
use zfstest.Prelude.{
  ℕ, ◌+◌, ◌<◌, ◌≡◌, refl, ◌≢◌, false, ◌∙◌, List, [], ◌∷◌, some, Bool-cases, length, arith, ==_of_ne,
  if◌then◌else◌, ◌==◌, inl, inr, ap, ap₂, fun_ext, Option, if_false,
}
use zfstest.Hashtable.Lock.{unlocked, exclusive, enoent, rw_wrlock}
use zfstest.Hashtable.Data.{Ptr, null, Key, World, set_entry, set_errno}
use zfstest.Hashtable.Stats.{CounterName, AverageName}
use zfstest.Hashtable.Stats.Bumps.{IsIdle, bump, tally, counter_add-bump, bump-IsCounting}
use zfstest.Hashtable.Locate.{matches, home}
use zfstest.Hashtable.Locate.Search.{outcome, pair, counted, Before, Before-step}
use zfstest.Hashtable.Locate.Found.{
  probed, locate_entry_at-outcome, table_held, call_table-take, call_table-give,
}
use zfstest.Hashtable.Chain.{IsChain, hold, locked}
use zfstest.Hashtable.Chain.Locked.{wrlock-Takes, next-locked, datum-locked}
use zfstest.Hashtable.Delete.{unlink, pull_up, delete_at, delete_found, delete_key}
use zfstest.Hashtable.Delete.Unlink.{unlinked, unlink-unlinked, pulled, pull_up-unlinked}

-- The only entry of a chain: it is marked as empty, and its lock stays held.
abbrev pub cleared_slot : Ptr → World → World
cleared_slot d w = set_entry d (record (w.entries d) { rwlock = exclusive; occupied = false }) w

-- The entry `d`, which `ps` follow, is removed from behind `p`, or from the head of the chain.
unfoldable pub removed : (p d : Ptr) → List Ptr → World → Ptr × World
removed p d ps w =
    let head : Ptr × World = elim ps [
      | [] ↦ ((w.entries d).datum, cleared_slot d w)
      | n ∷ ns ↦ ((w.entries n).datum, unlinked d n (pulled d n w))
    ] in
    if p == null then head else ((w.entries d).datum, unlinked p d w)

-- What the code does along the entries `ps` behind `p`, with NULL for `p` at the slot of the table.
unfoldable pub delete_in : Key → Ptr → List Ptr → ℕ → World → Ptr × World
delete_in key p [] depth w = (null, tally AverageName.searches depth (set_errno enoent w))
delete_in key p (d ∷ ps) depth w =
    if matches w key d then removed p d ps (counted depth w) else delete_in key d ps (depth + 1) w

-- The first entry with the key leaves the chain behind `p` and stands first on the free chain, and its
-- data are returned, or NULL if there is none; the walk counts its depth.
unfoldable pub remove_first : Key → Ptr → List Ptr → ℕ → World → Ptr × World
remove_first key p [] depth w = (null, tally AverageName.searches depth (set_errno enoent w))
remove_first key p (d ∷ ps) depth w =
    if matches w key d
    then ((w.entries d).datum, unlinked p d (counted depth w))
    else remove_first key d ps (depth + 1) w

delete_in-remove_first :
    (key : Key) (p a : Ptr) (ps : List Ptr) (depth : ℕ) (w : World)
    → p ≢ null
    → IsChain w.entries a (p ∷ ps)
    → delete_in key p ps depth w ≡ remove_first key p ps depth w
unfolding delete_in remove_first removed
delete_in-remove_first key p a [] depth w ne c = refl
delete_in-remove_first key p a (d ∷ ps) depth w ne c =
    rw
      (
        ==_of_ne p null ne,
        delete_in-remove_first key d (w.entries p).next ps (depth + 1) w c.5.1 c.5,
      )
      refl

delete_at-alone :
    (d : Ptr) (w : World)
    → (w.entries d).next ≡ null
    → delete_at (some null) d w
      ≡ ((w.entries d).datum, set_entry d (record (w.entries d) { occupied = false }) w)
unfolding delete_at
delete_at-alone d w e = rw e

delete_at-head :
    (d n : Ptr) (w : World)
    → (w.entries d).next ≡ n
    → n ≢ null
    → delete_at (some null) d w ≡ pull_up d w
unfolding delete_at
delete_at-head d n w e ne = rw (e, ==_of_ne n null ne)

delete_at-inner : (p d : Ptr) (w : World) → p ≢ null → delete_at (some p) d w ≡ unlink p d w
unfolding delete_at
delete_at-inner p d w ne = rw (==_of_ne p null ne)

module _ (p d : Ptr) (w : World) where
  cleared_same :
      (a : Ptr)
      → (set_entry d
            (record ((locked exclusive (d ∷ []) w).entries d) { occupied = false })
            (locked exclusive (d ∷ []) w)).entries
          a
        ≡ (cleared_slot d w).entries a
  unfolding hold
  cleared_same a = ground arith

  delete_at-removed :
      w.ht.freelock ≡ unlocked
      → (ps : List Ptr) → IsChain w.entries d (d ∷ ps)
      → Before w p d ps
      → delete_at (some p) d (locked exclusive (pair p d) w) ≡ removed p d ps w
  unfolding removed
  delete_at-removed free [] c (inl first) = rw first (
      delete_at-alone d (locked exclusive (d ∷ []) w) (next-locked exclusive (d ∷ []) w d ∙ c.5)
      ∙ ap₂ {C = Ptr × World} (λ v es. (v, record w { entries = es }))
          (datum-locked exclusive (d ∷ []) w d) (fun_ext cleared_same))
  delete_at-removed free (n ∷ ns) (_, ne, out, loose, _, rest) (inl first) = rw first (
      delete_at-head d n (locked exclusive (d ∷ []) w) (next-locked exclusive (d ∷ []) w d ∙ rest.0)
        rest.1
      ∙ pull_up-unlinked d n w (ground arith) free rest.0 loose rest.3)
  delete_at-removed free ps c (inr (later, apart, off, loose)) = rw (==_of_ne p null later) (
      delete_at-inner p d (locked exclusive (p ∷ d ∷ []) w) later
      ∙ unlink-unlinked p d w apart free loose c.3)

delete_found-null :
    (previous : Option Ptr) (w : World)
    → w.ht.tablelock ≡ unlocked
    → delete_found (null, previous) (table_held exclusive w) ≡ (null, w)
unfolding delete_found
delete_found-null previous w free = rw (call_table-give exclusive w (wrlock-Takes.given) free)

delete_found-some :
    (previous : Option Ptr) (d : Ptr) (w : World)
    → w.ht.tablelock ≡ unlocked
    → d ≢ null
    → delete_found (d, previous) (table_held exclusive w) ≡ delete_at previous d w
unfolding delete_found
delete_found-some previous d w free ne =
    rw (call_table-give exclusive w (wrlock-Takes.given) free, ==_of_ne d null ne)

delete_found-match :
    (key : Key) (garbage p d : Ptr) (ps : List Ptr) (depth : ℕ) (w : World)
    → w.ht.tablelock ≡ unlocked
    → w.ht.freelock ≡ unlocked
    → IsChain w.entries d (d ∷ ps)
    → Before w p d ps
    → delete_found
        (d, some p)
        (table_held exclusive (locked exclusive (pair p d) (counted depth w)))
      ≡ removed p d ps (counted depth w)
delete_found-match key garbage p d ps depth w tfree ffree c b =
    delete_found-some (some p) d (locked exclusive (pair p d) (counted depth w)) tfree c.1
    ∙ delete_at-removed p d (counted depth w) ffree ps c b

delete_found-outcome :
    (key : Key) (garbage p d : Ptr) (ps : List Ptr) (depth : ℕ) (w : World)
    → w.ht.tablelock ≡ unlocked
    → w.ht.freelock ≡ unlocked
    → IsChain w.entries d (d ∷ ps)
    → Before w p d ps
    → let r = outcome exclusive key (some garbage) p (d ∷ ps) depth (table_held exclusive w) in
      delete_found r.0 r.1 ≡ delete_in key p (d ∷ ps) depth w
unfolding delete_in
delete_found-outcome key garbage p d [] depth w tfree ffree c b =
    elim (Bool-cases (matches w key d)) [
      | inl hit ↦ rw hit (delete_found-match key garbage p d [] depth w tfree ffree c b)
      | inr miss ↦ rw miss (
          delete_found-null (some garbage)
            (tally AverageName.searches (depth + 1) (set_errno enoent w)) tfree)
    ]
delete_found-outcome key garbage p d (n ∷ ns) depth w tfree ffree c b =
    let (c', b') = Before-step w d n ns c in
    let onward = delete_found-outcome key garbage d n ns (depth + 1) w tfree ffree c' b' in
    elim (Bool-cases (matches w key d)) [
      | inl hit ↦ rw hit (delete_found-match key garbage p d (n ∷ ns) depth w tfree ffree c b)
      | inr miss ↦ rw miss onward
    ]

module _ (fuel : ℕ) (garbage : Ptr) (key : Key) (ps : List Ptr) (w : World) (idle : IsIdle w) where
  -- The code without its locks, at the slot of the table as well.
  pub delete_key-delete_in :
      IsChain w.entries (home key w) (home key w ∷ ps)
      → length ps < fuel
      → delete_key fuel garbage key w
        ≡ some (delete_in key null (home key w ∷ ps) 0 (probed (bump CounterName.deletes 1 w)))
  unfolding delete_key
  delete_key-delete_in chain enough =
      let held_world = set_errno 0 (table_held exclusive (bump CounterName.deletes 1 w)) in
      rw
        (
          counter_add-bump CounterName.deletes 1 w idle.counting.deletes,
          call_table-take rw_wrlock exclusive (bump CounterName.deletes 1 w) wrlock-Takes
              idle.tablelock,
          locate_entry_at-outcome wrlock-Takes key (some garbage) held_world
              (bump-IsCounting CounterName.deletes 1 w idle.counting) fuel ps chain enough,
        )
        (ap some (
          delete_found-outcome key garbage null (home key w) ps 0
            (probed (bump CounterName.deletes 1 w)) idle.tablelock idle.freelock chain (inl refl)))

  -- `ht_delete_key` of a key that is not that of the entry in the table slot equals, in the value
  -- returned and the whole state left behind, statistics included, a walk over the entries behind
  -- it that takes no lock, puts the first entry with the key at the front of the free chain and
  -- returns its data, or returns NULL with `errno` ENOENT, if no lock of the table head is held
  -- and the slot's entries are a chain with its locks free, no longer than the fuel; where the
  -- key is that of the slot, the code does something else.
  pub delete_key-remove_first :
      IsChain w.entries (home key w) (home key w ∷ ps)
      → length ps < fuel
      → matches w key (home key w) ≡ false
      → delete_key fuel garbage key w
        ≡ some (remove_first key (home key w) ps 1 (probed (bump CounterName.deletes 1 w)))
  unfolding delete_in
  delete_key-remove_first chain enough miss =
      let start = probed (bump CounterName.deletes 1 w) in
      delete_key-delete_in chain enough
      ∙ ap some (
          if_false (matches start key (home key w)) _ _ miss
          ∙ delete_in-remove_first key (home key w) (home key w) ps 1 start chain.1 chain)
