-- ===== src/Hashtable/Table/Freed.antt =====
-- The free chain after a deletion.
use zfstest.Prelude.{
  ℕ, ◌+◌, ◌≤◌, ◌≡◌, ◌≢◌, refl, true, false, List, [], ◌∷◌, has, length, arith, ◌==◌, ==_refl,
  Bool-cases, inl, inr, eq_of_==, ==_of_ne, sym, subst, subst₂, if◌then◌else◌,
}
use zfstest.Hashtable.Data.{Ptr, null, Key, World}
use zfstest.Hashtable.Lock.{unlocked}
use zfstest.Hashtable.Locate.{matches}
use zfstest.Hashtable.Locate.Search.{counted}
use zfstest.Hashtable.Chain.{IsChain}
use zfstest.Hashtable.Delete.Unlink.{unlinked}
use zfstest.Hashtable.Delete.Removed.{delete_in}
use zfstest.Hashtable.Delete.Contents.{drop_match, delete_in-hit, delete_in-miss, delete_in-nil}
use zfstest.Hashtable.Table.{IsFree, IsFree-frame}

-- The first entry that matches goes to the free ones.
abbrev pub freed : World → Key → List Ptr → List Ptr → List Ptr
freed w key [] fs = fs
freed w key (d ∷ ps) fs = if matches w key d then d ∷ fs else freed w key ps fs

module _ (w : World) (key : Key) (fs : List Ptr) where
  pub freed-has :
      (a : Ptr) (ps : List Ptr)
      → has a ps ≡ false
      → has a fs ≡ false
      → has a (freed w key ps fs) ≡ false
  freed-has a [] out off = off
  freed-has a (d ∷ ps) out off = ground (arith, freed-has a ps)

  -- What stays on the chain is not freed.
  pub freed-drop_match :
      (a p : Ptr) (ps : List Ptr)
      → IsChain w.entries p ps
      → has a fs ≡ false
      → has a (drop_match w key ps) ≡ true
      → has a (freed w key ps fs) ≡ false
  freed-drop_match a p [] c off on = off
  freed-drop_match a p (d ∷ ps) (at, ne, out, free, full, rest) off on =
      elim (Bool-cases (matches w key d)) [
        | inl hit ↦
            let left : drop_match w key (d ∷ ps) ≡ ps = rw hit in
            let more : freed w key (d ∷ ps) fs ≡ d ∷ fs = rw hit in
            let here = subst (λ l. has a l ≡ true) left on in
            let apart : a ≢ d =
              λ e. let x = subst (λ k. has k ps ≡ true) e here in absurd (ground arith) in
            let e = ==_of_ne a d apart in subst (λ l. has a l ≡ false) (sym more) (ground arith)
        | inr miss ↦
            let left : drop_match w key (d ∷ ps) ≡ d ∷ drop_match w key ps = rw miss in
            let more : freed w key (d ∷ ps) fs ≡ freed w key ps fs = rw miss in
            let here = subst (λ l. has a l ≡ true) left on in
            subst (λ l. has a l ≡ false) (sym more)
              (elim (Bool-cases (a == d)) [
                | inl same ↦
                    let e = eq_of_== a d same in
                    freed-has a ps (subst (λ k. has k ps ≡ false) (sym e) out) off
                | inr other ↦ freed-drop_match a (w.entries d).next ps rest off (ground arith)
              ])
      ]

  pub length-freed : (ps : List Ptr) → length fs ≤ length (freed w key ps fs)
  length-freed [] = omega arith
  length-freed (d ∷ ps) = ground (arith, length-freed ps)

module _ (p d : Ptr) (fs : List Ptr) (w : World) where
  pub unlinked-IsFree :
      d ≢ null
      → (w.entries d).rwlock ≡ unlocked
      → has p fs ≡ false
      → has d fs ≡ false
      → IsFree w.entries w.ht.freechain fs
      → IsFree (unlinked p d w).entries d (d ∷ fs)
  unlinked-IsFree ne loose pout dout free =
      let es = (unlinked p d w).entries in
      rw (==_refl d) (
        refl,
        ne,
        dout,
        loose,
        IsFree-frame w.entries es w.ht.freechain fs free (λ a h. ground arith),
      )

-- Whichever entry behind `p` is deleted, it is then the first of the free ones.
pub delete_in-IsFree :
    (key : Key) (p q : Ptr) (ps fs : List Ptr) (depth : ℕ) (w : World)
    → p ≢ null
    → has p fs ≡ false
    → ((a : Ptr) → has a ps ≡ true → has a fs ≡ false)
    → IsChain w.entries q ps
    → IsFree w.entries w.ht.freechain fs
    → IsFree
        (delete_in key p ps depth w).1.entries
        (delete_in key p ps depth w).1.ht.freechain
        (freed w key ps fs)
delete_in-IsFree key p q [] fs depth w ne pout out c free = rw delete_in-nil free
delete_in-IsFree key p q (d ∷ ps) fs depth w ne pout out (at, dne, dout, loose, full, rest) free =
    let stock = λ (r : Ptr × World) (l : List Ptr). IsFree r.1.entries r.1.ht.freechain l in
    let doff = out d (rw (==_refl d)) in
    elim (Bool-cases (matches w key d)) [
      | inl hit ↦
          let more : freed w key (d ∷ ps) fs ≡ d ∷ fs = rw hit in
          subst₂ stock (sym (delete_in-hit key p d ps depth w hit ne)) (sym more)
            (unlinked-IsFree p d fs (counted depth w) dne loose pout doff free)
      | inr miss ↦
          let more : freed w key (d ∷ ps) fs ≡ freed w key ps fs = rw miss in
          subst₂ stock (sym (delete_in-miss key p d ps depth w miss)) (sym more) (
            delete_in-IsFree key d (w.entries d).next ps fs (depth + 1) w dne doff
              (λ a h. out a (ground arith)) rest free)
    ]
