-- ===== src/Hashtable/Table/Delete.antt =====
-- `ht_delete_key` on a whole table.
use zfstest.Prelude.{
  ℕ, ◌<◌, ◌≤◌, ◌≡◌, ◌≢◌, refl, Bool, true, false, List, [], ◌∷◌, has, Option, some, none, length,
  arith, ◌==◌, if◌then◌else◌, Bool-cases, inl, inr, eq_of_==, ne_of_==, ==_refl, sym, subst, ap,
  ◌∙◌,
}
use zfstest.Hashtable.Lock.{unlocked}
use zfstest.Hashtable.Data.{Ptr, null, Key, World}
use zfstest.Hashtable.Stats.{CounterName}
use zfstest.Hashtable.Stats.Bumps.{bump}
use zfstest.Hashtable.Locate.{matches, home}
use zfstest.Hashtable.Locate.Search.{counted}
use zfstest.Hashtable.Locate.Found.{probed}
use zfstest.Hashtable.Delete.{delete_key}
use zfstest.Hashtable.Delete.Unlink.{pulled}
use zfstest.Hashtable.Delete.Removed.{delete_key-delete_in}
use zfstest.Hashtable.Delete.Contents.{drop_match, delete_in-miss}
use zfstest.Hashtable.Delete.Laws.{Deletes, delete_in-head, delete_key-inner, delete_key-head}
use zfstest.Hashtable.Chain.{IsChain}
use zfstest.Hashtable.Chain.Contents.{Pairs, same_key, erase, contents}
use zfstest.Hashtable.Table.{
  Layout, IsTable, IsBucket, IsFree, IsFree-frame, index, view, index-Steady,
}
use zfstest.Hashtable.Table.Change.{IsChange, change-IsTable, change-view}
use zfstest.Hashtable.Table.Freed.{
  freed, freed-has, freed-drop_match, length-freed, unlinked-IsFree, delete_in-IsFree,
}
use zfstest.Hashtable.Table.Shrunk.{without, without-here, deleted-IsChange, has-drop_match}

abbrev state_or : World → Option (Ptr × World) → World
state_or w none = w
state_or w (some (_, v)) = v

-- The first pair of the slot that the key fits is gone.
abbrev pub deleted : Key → World → Layout → Key → Pairs
deleted key w t k =
    if index k w == index key w
    then erase (same_key w key) (view w t (index k w))
    else view w t (index k w)

module _ (fuel : ℕ) (garbage : Ptr) (key : Key) (w : World) (t : Layout) where
  -- What a deletion comes to.
  abbrev pub IsDeleted : Type 0
  IsDeleted =
      (r : Ptr) × (v : World) × (u : Layout) × (delete_key fuel garbage key w ≡ some (r, v))
      × IsTable v u
      × ((k : Key) → view v u (index k v) ≡ deleted key w t k)
      × (length t.free ≤ length u.free)

  changed :
      (i : IsTable w t)
      → (r : Ptr) → (v : World) → (ps qs fs : List Ptr)
      → delete_key fuel garbage key w ≡ some (r, v)
      → t.chain (index key w) ≡ home key w ∷ ps
      → Deletes w v key (home key w) ps qs
      → IsChange w v t (without w (index key w) (home key w ∷ qs) fs t) (index key w)
      → length t.free ≤ length fs
      → IsDeleted
  changed i r v ps qs fs done occupied d c more =
      let n = index key w in
      let b = home key w in
      let u = without w n (b ∷ qs) fs t in
      let e : view v u n ≡ erase (same_key w key) (view w t n) =
        ap (contents v.entries) (without-here w n (b ∷ qs) fs t)
        ∙ d.pairs
        ∙ ap (λ l. erase (same_key w key) (contents w.entries l)) (sym occupied) in
      let split : (k : Key) (c : Bool)
          → c ≡ (index k w == n)
          → view v u (index k w)
            ≡ (if c then erase (same_key w key) (view w t (index k w)) else view w t (index k w))
          → view v u (index k w) ≡ deleted key w t k =
        λ k c h x.
          subst
            (λ c.
              view v u (index k w)
              ≡ (if c then erase (same_key w key) (view w t (index k w)) else view w t (index k w)))
            h x in
      (
        r,
        v,
        u,
        done,
        change-IsTable i c,
        λ k. rw (index-Steady c.steady k) (elim (Bool-cases (index k w == n)) [
          | inl here ↦ split k true (sym here) (
              subst (λ m. view v u m ≡ erase (same_key w key) (view w t m))
                (sym (eq_of_== (index k w) n here)) e)
          | inr other ↦
              split k false (sym other)
                (change-view i c (index k w) (i.spread k) (ne_of_== (index k w) n other))
        ]),
        more,
      )

  abbrev start : World
  start = probed (bump CounterName.deletes 1 w)

  module _ (ps : List Ptr) (i : IsTable w t) (occupied : t.chain (index key w) ≡ home key w ∷ ps)
      (enough : length ps < fuel) where
    bucket-IsChain : IsChain w.entries (home key w) (home key w ∷ ps)
    bucket-IsChain =
        subst (IsBucket w.entries (home key w)) occupied (i.buckets (index key w) (i.spread key))

    off : (a : Ptr) → has a (home key w ∷ ps) ≡ true → has a t.free ≡ false
    off a h = elim (Bool-cases (has a t.free)) [
      | inl on ↦
          let below = i.spread key in
          let e = i.unowned a on in
          let on_chain : has a (home key w ∷ home key w ∷ ps) ≡ true = ground arith in
          let mine =
            i.owned (index key w) a below
              (subst (λ l. has a (home key w ∷ l) ≡ true) (sym occupied) on_chain) in
          absurd (omega arith)
      | inr away ↦ away
    ]

    delete_inner : matches w key (home key w) ≡ false → IsDeleted
    delete_inner miss =
        let b = home key w in
        let c = bucket-IsChain in
        let qs = drop_match w key ps in
        let fs = freed w key ps t.free in
        let (r, v, done, _, d) = delete_key-inner fuel garbage key w i.idle ps c enough miss in
        let run =
          delete_key-delete_in fuel garbage key ps w i.idle c enough
          ∙ ap some (delete_in-miss key null b ps 0 start miss) in
        let same = ap (state_or w) (sym run ∙ done) in
        let free =
          subst (λ (x : World). IsFree x.entries x.ht.freechain fs) same
            (delete_in-IsFree key b (w.entries b).next ps t.free 1 start c.1 (off b (ground arith))
              (λ a h. off a (ground arith)) c.5 i.free) in
        let kept : (a : Ptr) → has a (b ∷ qs) ≡ true → has a t.free ≡ false → has a fs ≡ false =
          λ a on out. elim (Bool-cases (a == b)) [
            | inl here ↦
                let e = eq_of_== a b here in
                freed-has w key t.free a ps (subst (λ x. has x ps ≡ false) (sym e) c.2) out
            | inr other ↦
                freed-drop_match w key t.free a (w.entries b).next ps c.5 out (ground arith)
          ] in
        changed i r v ps qs fs done occupied d
          (deleted-IsChange key w v t i ps qs fs occupied d free
            (λ a gone out. freed-has w key t.free a ps (ground arith) out) kept
            (λ a h. ground (arith, has-drop_match w key a ps)))
          (length-freed w key t.free ps)

  module _ (m : Ptr) (ns : List Ptr) (i : IsTable w t)
      (occupied : t.chain (index key w) ≡ home key w ∷ m ∷ ns)
      (enough : length (m ∷ ns) < fuel) where
    delete_head : matches w key (home key w) ≡ true → IsDeleted
    delete_head hit =
        let b = home key w in
        let c = bucket-IsChain (m ∷ ns) i occupied enough in
        let out = off (m ∷ ns) i occupied enough in
        let fs = m ∷ t.free in
        let (v, done, d) = delete_key-head fuel garbage key w i.idle m ns c enough hit in
        let run =
          delete_key-delete_in fuel garbage key (m ∷ ns) w i.idle c enough
          ∙ ap some (delete_in-head key b m ns 0 start hit) in
        let same = ap (state_or w) (sym run ∙ done) in
        let copy = pulled b m (counted 0 start) in
        let b_out = out b (rw (==_refl b)) in
        let m_out = out m (rw (==_refl m) (ground arith)) in
        let loose : (copy.entries m).rwlock ≡ unlocked = ground arith in
        let free =
          subst (λ (x : World). IsFree x.entries x.ht.freechain fs) same
            (unlinked-IsFree b m t.free copy c.5.1 loose b_out m_out (
              IsFree-frame w.entries copy.entries w.ht.freechain t.free i.free
                (λ a h. ground arith))) in
        changed i (w.entries m).datum v (m ∷ ns) ns fs done occupied d
          (deleted-IsChange key w v t i (m ∷ ns) ns fs occupied d free (λ a gone off. ground arith)
            (λ a on off. ground arith) (λ a h. ground arith))
          (omega arith)

  delete_on :
      (ps : List Ptr)
      → (i : IsTable w t) → t.chain (index key w) ≡ home key w ∷ ps
      → length ps < fuel
      → erase (same_key w key) (contents w.entries (home key w ∷ ps)) ≢ []
      → IsDeleted
  unfolding erase
  delete_on [] i occupied enough left = elim (Bool-cases (matches w key (home key w))) [
    | inl hit ↦ absurd (left (rw hit))
    | inr miss ↦ delete_inner [] i occupied enough miss
  ]
  delete_on (m ∷ ns) i occupied enough left = elim (Bool-cases (matches w key (home key w))) [
    | inl hit ↦ delete_head m ns i occupied enough hit
    | inr miss ↦ delete_inner (m ∷ ns) i occupied enough miss
  ]

  delete_from :
      (ps : List Ptr)
      → (i : IsTable w t) → t.chain (index key w) ≡ ps
      → length ps ≤ fuel
      → erase (same_key w key) (contents w.entries ps) ≢ []
      → IsDeleted
  unfolding erase
  delete_from [] i vacant enough left = absurd (left refl)
  delete_from (p ∷ ps) i some_entries enough left =
      let b = home key w in
      let start =
        subst (IsBucket w.entries b) some_entries (i.buckets (index key w) (i.spread key)) in
      let at = sym start.0 in
      delete_on ps i (some_entries ∙ ap (λ x. x ∷ ps) at) (omega arith)
        (subst (λ x. erase (same_key w key) (contents w.entries (x ∷ ps)) ≢ []) at left)

  -- `ht_delete_key` on a well-formed table, where every slot is empty or starts a chain, no two
  -- slots and the free chain share an entry and no lock is held: if fuel is at least the length
  -- of the chain of the key's slot and the slot keeps a pair once the first one with the key is
  -- gone, it returns, the table is well formed again, the first pair with the key is gone from
  -- its slot, the pairs of every other slot are as before, and no entry is lost from the free
  -- chain.
  pub delete_key-IsTable :
      IsTable w t
      → length (t.chain (index key w)) ≤ fuel
      → erase (same_key w key) (view w t (index key w)) ≢ []
      → IsDeleted
  delete_key-IsTable i enough left = delete_from (t.chain (index key w)) i refl enough left
