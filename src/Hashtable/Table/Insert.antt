-- ===== src/Hashtable/Table/Insert.antt =====
-- `ht_insert_key` on a whole table.
use zfstest.Prelude.{
  ℕ, suc, ◌<◌, ◌≤◌, ◌≡◌, ◌≢◌, refl, true, false, not, ◌&&◌, List, [], ◌∷◌, has, some, length, pos,
  arith, ◌==◌, if◌then◌else◌, Bool-cases, inl, inr, eq_of_==, ne_of_==, ==_of_ne, ==_refl, sym,
  subst, ap, ◌∙◌,
}
use zfstest.Hashtable.Data.{Ptr, Key, World}
use zfstest.Hashtable.Locate.{home}
use zfstest.Hashtable.Insert.{insert_key_with}
use zfstest.Hashtable.Insert.Steps.{Resize}
use zfstest.Hashtable.Insert.Laws.{
  NeverFull, Inserts, insert_second, insert_key-vacant, insert_key-chained,
}
use zfstest.Hashtable.Chain.{IsChain}
use zfstest.Hashtable.Chain.Contents.{same_key, Pairs, occurs, contents}
use zfstest.Hashtable.Table.{
  Layout, IsTable, IsBucket, IsFree, IsFree-frame, size, index, view, index-Steady,
}
use zfstest.Hashtable.Table.Change.{IsChange, change-IsTable, change-view}

-- The slot `n` has the entries `ps`.
abbrev pub with_chain : ℕ → List Ptr → Layout → Layout
with_chain n ps t = record t { chain = λ j. if j == n then ps else t.chain j }

-- The free entry `f` has gone to the slot `n`.
abbrev pub with_taken : ℕ → Ptr → List Ptr → Layout → Layout
with_taken n f fs t = record t { free = fs; owner = λ a. if a == f then n else t.owner a }

pub with_chain-here : (n : ℕ) (ps : List Ptr) (t : Layout) → (with_chain n ps t).chain n ≡ ps
with_chain-here n ps t = rw (==_refl n)

-- Every entry of a chain is the first or one of the rest.
owned_list :
    (owner : Ptr → ℕ) (n : ℕ) (b : Ptr) (qs : List Ptr)
    → owner b ≡ n
    → ((a : Ptr) → has a qs ≡ true → owner a ≡ n)
    → (a : Ptr) → has a (b ∷ b ∷ qs) ≡ true
    → owner a ≡ n
owned_list owner n b qs mine rest a o = elim (Bool-cases (a == b)) [
  | inl here ↦ ap owner (eq_of_== a b here) ∙ mine
  | inr other ↦ rest a (ground arith)
]

module _ (key : Key) (datum : Ptr) (w v : World) (t : Layout) (i : IsTable w t) where
  abbrev n : ℕ
  n = index key w

  abbrev b : Ptr
  b = home key w

  mine : t.owner b ≡ n
  mine = i.owned n b (i.spread key) (rw (==_refl b))

  -- An entry of another owner is none of the slot's.
  pub off : (a : Ptr) → t.owner a ≢ n → has a (b ∷ t.chain n) ≡ false
  off a other = elim (Bool-cases (has a (b ∷ t.chain n))) [
    | inl on ↦ absurd (other (i.owned n a (i.spread key) on))
    | inr out ↦ out
  ]

  vacant-IsChange :
      t.chain n ≡ []
      → Inserts w v key datum b [] []
      → v.ht.freechain ≡ w.ht.freechain
      → IsChange w v t (with_chain n (b ∷ []) t) n
  vacant-IsChange none ins free =
      let entries : (a : Ptr) → t.owner a ≢ n → v.entries a ≡ w.entries a = λ a other.
        let out = subst (λ ps. has a (b ∷ ps) ≡ false) none (off a other) in
        subst (λ c. (if c then w.entries a else v.entries a) ≡ w.entries a) out (ins.others a) in
      record {
        steady = ins.steady;
        bucket = subst (IsBucket v.entries b) (sym (with_chain-here n (b ∷ []) t)) ins.chain;
        chains = λ j apart. rw (==_of_ne j n apart);
        entries = λ a h other. entries a other;
        owners = λ a h other. refl;
        owned = λ a o.
            owned_list t.owner n b [] mine (λ a h. absurd (ground arith)) a
              (subst (λ ps. has a (b ∷ ps) ≡ true) (with_chain-here n (b ∷ []) t) o);
        free = rw free (
            IsFree-frame w.entries v.entries w.ht.freechain t.free i.free (λ a h.
              let e = i.unowned a h in let below = i.spread key in entries a (omega arith)));
        unowned = i.unowned;
      }

  pub chained-IsChange :
      (f : Ptr) (fs ps : List Ptr)
      → t.free ≡ f ∷ fs
      → t.chain n ≡ b ∷ ps
      → Inserts w v key datum b (b ∷ ps) (f ∷ ps)
      → IsFree w.entries (w.entries f).next fs
      → has f fs ≡ false
      → v.ht.freechain ≡ (w.entries f).next
      → IsChange w v t (with_chain n (b ∷ f ∷ ps) (with_taken n f fs t)) n
  chained-IsChange f fs ps some_free occupied ins rest apart free =
      let below = i.spread key in
      let loose : (a : Ptr) → has a (f ∷ fs) ≡ true → t.owner a ≡ size w =
        λ a h. i.unowned a (subst (λ l. has a l ≡ true) (sym some_free) h) in
      let f_loose = loose f (rw (==_refl f)) in
      let entries : (a : Ptr) → t.owner a ≢ n → a ≢ f → v.entries a ≡ w.entries a = λ a other af.
        let out = subst (λ l. has a (b ∷ l) ≡ false) occupied (off a other) in
        let e = ==_of_ne a f af in
        let gone : has a (b ∷ f ∷ ps) ≡ false = ground arith in
        subst (λ c. (if c then w.entries a else v.entries a) ≡ w.entries a) gone (ins.others a) in
      let other_than_f : (a : Ptr) → t.owner a < size w → a ≢ f =
        λ a h e. absurd (let x : t.owner a ≡ size w = ap t.owner e ∙ f_loose in omega arith) in
      let u = with_taken n f fs t in
      let not_f : (a : Ptr) → has a fs ≡ true → a ≢ f = λ a h e.
        let x : has f fs ≡ true = subst (λ k. has k fs ≡ true) e h in absurd (ground arith) in
      let mine' : u.owner b ≡ n = rw (==_of_ne b f (other_than_f b (rw mine below))) mine in
      let theirs : (a : Ptr) → has a (f ∷ ps) ≡ true → u.owner a ≡ n = λ a h.
        elim (Bool-cases (a == f)) [
          | inl here ↦ rw here
          | inr other ↦
              let on : has a (b ∷ b ∷ ps) ≡ true = ground arith in
              let e = i.owned n a below (subst (λ l. has a (b ∷ l) ≡ true) (sym occupied) on) in
              rw other e
        ] in
      record {
        steady = ins.steady;
        bucket = subst (IsBucket v.entries b) (sym (with_chain-here n (b ∷ f ∷ ps) u)) ins.chain;
        chains = λ j apart. rw (==_of_ne j n apart);
        entries = λ a h other. entries a other (other_than_f a h);
        owners = λ a h other. rw (==_of_ne a f (other_than_f a h));
        owned = λ a o.
            owned_list u.owner n b (f ∷ ps) mine' theirs a
              (subst (λ l. has a (b ∷ l) ≡ true) (with_chain-here n (b ∷ f ∷ ps) u) o);
        free = rw free (
            IsFree-frame w.entries v.entries (w.entries f).next fs rest
              (λ a h. let e = loose a (ground arith) in entries a (omega arith) (not_f a h)));
        unowned = λ a h. rw (==_of_ne a f (not_f a h)) (loose a (ground arith));
      }

-- The pair goes to the slot of its key, behind the first one there.
abbrev pub inserted : Key → Ptr → World → Layout → Key → Pairs
inserted key datum w t k =
    if index k w == index key w
    then insert_second (key, datum) (view w t (index k w))
    else view w t (index k w)

module _ (fuel : ℕ) (resize : Resize) (key : Key) (datum : Ptr) (w : World) (t : Layout) where
  -- What an insertion comes to.
  abbrev pub IsInserted : Type 0
  IsInserted =
      (v : World) × (u : Layout) × (insert_key_with (suc fuel) resize key datum w ≡ some (pos 0, v))
      × IsTable v u
      × ((k : Key) → view v u (index k v) ≡ inserted key datum w t k)
      × (length t.free ≤ suc (length u.free))

  pub change-inserted :
      (v : World) (u : Layout) (ps qs : List Ptr)
      → IsTable w t
      → IsChange w v t u (index key w)
      → t.chain (index key w) ≡ ps
      → u.chain (index key w) ≡ qs
      → contents v.entries qs ≡ insert_second (key, datum) (contents w.entries ps)
      → (k : Key) → view v u (index k v) ≡ inserted key datum w t k
  change-inserted v u ps qs i c before after pairs k =
      let n = index key w in
      let e : view v u n ≡ insert_second (key, datum) (view w t n) =
        ap (contents v.entries) after
        ∙ pairs
        ∙ ap (λ l. insert_second (key, datum) (contents w.entries l)) (sym before) in
      rw (index-Steady c.steady k) (elim (Bool-cases (index k w == index key w)) [
        | inl here ↦ rw here (
            subst (λ m. view v u m ≡ insert_second (key, datum) (view w t m))
              (sym (eq_of_== (index k w) (index key w) here)) e)
        | inr other ↦
            rw other
              (change-view i c (index k w) (i.spread k) (ne_of_== (index k w) (index key w) other))
      ])

  changed :
      IsTable w t
      → (v : World) → (u : Layout) → insert_key_with (suc fuel) resize key datum w ≡ some (pos 0, v)
      → IsChange w v t u (index key w)
      → (ps qs : List Ptr) → t.chain (index key w) ≡ ps
      → u.chain (index key w) ≡ qs
      → contents v.entries qs ≡ insert_second (key, datum) (contents w.entries ps)
      → length t.free ≤ suc (length u.free)
      → IsInserted
  changed i v u done c ps qs before after pairs more =
      (v, u, done, change-IsTable i c, change-inserted v u ps qs i c before after pairs, more)

  insert_in :
      (ps : List Ptr) (f : Ptr) (fs : List Ptr)
      → IsTable w t
      → t.chain (index key w) ≡ ps
      → t.free ≡ f ∷ fs
      → length ps ≤ fuel
      → (not w.ht.dups_allowed && occurs (same_key w key) (contents w.entries ps)) ≡ false
      → NeverFull w
      → IsInserted
  insert_in [] f fs i none some_free enough fresh never =
      let n = index key w in
      let b = home key w in
      let below = i.spread key in
      let (empty, loose, last) = subst (IsBucket w.entries b) none (i.buckets n below) in
      let base = i.base in
      let (v, done, ins, free) =
        insert_key-vacant (suc fuel) resize key datum w i.idle empty loose last (omega arith) in
      changed i v (with_chain n (b ∷ []) t) done (vacant-IsChange key datum w v t i none ins free)
        [] (b ∷ []) none (with_chain-here n (b ∷ []) t) ins.pairs (omega arith)
  insert_in (p ∷ ps) f fs i some_entries some_free enough fresh never =
      let n = index key w in
      let b = home key w in
      let q = w.ht.freechain in
      let below = i.spread key in
      let start = subst (IsBucket w.entries b) some_entries (i.buckets n below) in
      let at = sym start.0 in
      let occupied = some_entries ∙ ap (λ x. x ∷ ps) at in
      let c = subst (λ x. IsChain w.entries b (x ∷ ps)) at start in
      let first = subst (IsFree w.entries q) some_free i.free in
      let stock = some_free ∙ ap (λ x. x ∷ fs) (sym first.0) in
      let (_, ready, apart, loose, rest) =
        subst (λ x. IsFree w.entries q (x ∷ fs)) (sym first.0) first in
      let unowned = i.unowned q (rw (stock, ==_refl q)) in
      let out = off key datum w w t i q (λ e. absurd (omega arith)) in
      let away = subst (λ l. has q (b ∷ l) ≡ false) occupied out in
      let new =
        subst
          (λ x.
            (not w.ht.dups_allowed && occurs (same_key w key) (contents w.entries (x ∷ ps)))
            ≡ false)
          at fresh in
      let (v, done, ins, free) =
        insert_key-chained fuel resize key datum w i.idle ps c (omega arith) new never ready
          (ground arith) loose in
      let u = with_taken n q fs t in
      let more : length t.free ≤ suc (length fs) = rw stock (omega arith) in
      changed i v (with_chain n (b ∷ q ∷ ps) u) done
        (chained-IsChange key datum w v t i q fs ps stock occupied ins rest apart free) (b ∷ ps)
        (b ∷ q ∷ ps) occupied (with_chain-here n (b ∷ q ∷ ps) u) ins.pairs more

  -- `ht_insert_key` on a well-formed table, where every slot is empty or starts a chain, no two
  -- slots and the free chain share an entry and no lock is held: if there is a free entry, fuel
  -- is at least the length of the chain of the key's slot, no key there forbids the new one and
  -- the threshold function, if there is one, always answers 0, then it returns 0, the table is
  -- well formed again, the slot has the same pairs and the new one behind its first, the pairs of
  -- every other slot are as before, and at most one free entry is used.
  pub insert_key-IsTable :
      (f : Ptr) (fs : List Ptr)
      → IsTable w t
      → t.free ≡ f ∷ fs
      → length (t.chain (index key w)) ≤ fuel
      → (not w.ht.dups_allowed && occurs (same_key w key) (view w t (index key w))) ≡ false
      → NeverFull w
      → IsInserted
  insert_key-IsTable f fs i some_free enough fresh never =
      insert_in (t.chain (index key w)) f fs i refl some_free enough fresh never
