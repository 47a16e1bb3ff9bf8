-- ===== src/Hashtable/Delete/Contents.antt =====
-- What `ht_delete_key` does to the contents of a chain.
use zfstest.Prelude.{
  ℕ, ◌+◌, ◌≡◌, refl, ◌≢◌, true, false, List, [], ◌∷◌, has, inl, inr, Bool-cases, arith,
  if◌then◌else◌, ◌==◌, ==_of_ne, ==_refl, sym, subst₂,
}
use zfstest.Hashtable.Lock.{enoent}
use zfstest.Hashtable.Data.{Ptr, null, Key, World, set_errno}
use zfstest.Hashtable.Stats.{AverageName}
use zfstest.Hashtable.Stats.Bumps.{tally}
use zfstest.Hashtable.Locate.{matches}
use zfstest.Hashtable.Locate.Search.{counted}
use zfstest.Hashtable.Chain.{IsChain}
use zfstest.Hashtable.Chain.Contents.{same_key, contents, find, get_or, erase, IsChain-frame}
use zfstest.Hashtable.Delete.Removed.{delete_in, removed}
use zfstest.Hashtable.Delete.Unlink.{unlinked}

-- The entries without the first that matches.
abbrev pub drop_match : World → Key → List Ptr → List Ptr
drop_match w key [] = []
drop_match w key (d ∷ ps) = if matches w key d then ps else d ∷ drop_match w key ps

drop_match-has :
    (w : World) (key : Key) (a : Ptr) (ps : List Ptr)
    → has a ps ≡ false
    → has a (drop_match w key ps) ≡ false
drop_match-has w key a [] out = out
drop_match-has w key a (d ∷ ps) out = ground (arith, drop_match-has w key a ps)

pub contents-drop_match :
    (w : World) (key : Key) (ps : List Ptr)
    → contents w.entries (drop_match w key ps) ≡ erase (same_key w key) (contents w.entries ps)
unfolding erase
contents-drop_match w key [] = refl
contents-drop_match w key (d ∷ ps) = ground (arith, contents-drop_match w key ps)

pub unlinked-IsChain :
    (p d : Ptr) (ps : List Ptr) (w : World)
    → IsChain w.entries p (p ∷ d ∷ ps)
    → IsChain (unlinked p d w).entries p (p ∷ ps)
unlinked-IsChain p d ps w (_, ne, out, free, full, rest) =
    let pd : (p == d) ≡ false = ground arith in
    rw (pd, ==_refl p)
      (
        refl,
        ne,
        ground arith,
        free,
        full,
        IsChain-frame w.entries (unlinked p d w).entries (w.entries d).next ps rest.5
            (λ a h. ground arith),
      )

pub delete_in-hit :
    (key : Key) (p d : Ptr) (ps : List Ptr) (depth : ℕ) (w : World)
    → matches w key d ≡ true
    → p ≢ null
    → delete_in key p (d ∷ ps) depth w ≡ ((w.entries d).datum, unlinked p d (counted depth w))
unfolding delete_in removed
delete_in-hit key p d ps depth w hit ne = rw (hit, ==_of_ne p null ne)

pub delete_in-miss :
    (key : Key) (p d : Ptr) (ps : List Ptr) (depth : ℕ) (w : World)
    → matches w key d ≡ false
    → delete_in key p (d ∷ ps) depth w ≡ delete_in key d ps (depth + 1) w
unfolding delete_in
delete_in-miss key p d ps depth w miss = rw miss

pub delete_in-nil :
    (key : Key) (p : Ptr) (depth : ℕ) (w : World)
    → delete_in key p [] depth w ≡ (null, tally AverageName.searches depth (set_errno enoent w))
unfolding delete_in
delete_in-nil key p depth w = refl

-- Behind an entry `p` that stays.
module _ (key : Key) where
  pub delete_in_values :
      (p q : Ptr) (ps : List Ptr) (depth : ℕ) (w : World) (a : Ptr)
      → p ≢ null
      → IsChain w.entries q ps
      → (((delete_in key p ps depth w).1.entries a).key ≡ (w.entries a).key)
        × (((delete_in key p ps depth w).1.entries a).datum ≡ (w.entries a).datum)
  delete_in_values p q [] depth w a ne c = rw delete_in-nil (refl, refl)
  delete_in_values p q (d ∷ ps) depth w a ne c =
      let (k, v) = delete_in_values d (w.entries d).next ps (depth + 1) w a c.1 c.5 in
      elim (Bool-cases (matches w key d)) [
        | inl hit ↦ rw (delete_in-hit key p d ps depth w hit ne) (ground arith)
        | inr miss ↦ rw (delete_in-miss key p d ps depth w miss) (k, v)
      ]

  pub delete_in_outside :
      (p q : Ptr) (ps : List Ptr) (depth : ℕ) (w : World) (a : Ptr)
      → p ≢ null
      → IsChain w.entries q ps
      → has a (p ∷ ps) ≡ false
      → (delete_in key p ps depth w).1.entries a ≡ w.entries a
  delete_in_outside p q [] depth w a ne c out = rw delete_in-nil
  delete_in_outside p q (d ∷ ps) depth w a ne c out = elim (Bool-cases (matches w key d)) [
    | inl hit ↦ rw (delete_in-hit key p d ps depth w hit ne) (ground arith)
    | inr miss ↦
        rw (delete_in-miss key p d ps depth w miss)
          (delete_in_outside d (w.entries d).next ps (depth + 1) w a c.1 c.5 (ground arith))
  ]

  pub delete_in-IsChain :
      (p : Ptr) (ps : List Ptr) (depth : ℕ) (w : World)
      → IsChain w.entries p (p ∷ ps)
      → IsChain (delete_in key p ps depth w).1.entries p (p ∷ drop_match w key ps)
  delete_in-IsChain p [] depth w c = rw delete_in-nil c
  delete_in-IsChain p (d ∷ ps) depth w (at, ne, out, free, full, rest) =
      let chain = λ (r : Ptr × World) (qs : List Ptr). IsChain r.1.entries p (p ∷ qs) in
      elim (Bool-cases (matches w key d)) [
        | inl hit ↦
            let e = delete_in-hit key p d ps depth w hit ne in
            let left : drop_match w key (d ∷ ps) ≡ ps = rw hit in
            subst₂ chain (sym e) (sym left)
              (unlinked-IsChain p d ps (counted depth w) (at, ne, out, free, full, rest))
        | inr miss ↦
            let e = delete_in-miss key p d ps depth w miss in
            let left : drop_match w key (d ∷ ps) ≡ d ∷ drop_match w key ps = rw miss in
            let same : (delete_in key d ps (depth + 1) w).1.entries p ≡ w.entries p =
              delete_in_outside d (w.entries d).next ps (depth + 1) w p rest.1 rest.5 out in
            let onward =
              delete_in-IsChain d ps (depth + 1) w (refl, rest.1, rest.2, rest.3, rest.4, rest.5) in
            subst₂ chain (sym e) (sym left) (
              refl,
              ne,
              ground (arith, drop_match-has w key p ps),
              rw same free,
              rw same full,
              rw (same, rest.0) onward,
            )
      ]

  -- The data of the entry that is removed comes back.
  pub delete_in-find :
      (p q : Ptr) (ps : List Ptr) (depth : ℕ) (w : World)
      → p ≢ null
      → IsChain w.entries q ps
      → (delete_in key p ps depth w).0 ≡ get_or (find (same_key w key) (contents w.entries ps)) null
  unfolding find
  delete_in-find p q [] depth w ne c = rw delete_in-nil
  delete_in-find p q (d ∷ ps) depth w ne c = elim (Bool-cases (matches w key d)) [
    | inl hit ↦ rw (delete_in-hit key p d ps depth w hit ne, hit)
    | inr miss ↦
        rw (delete_in-miss key p d ps depth w miss, miss)
          (delete_in-find d (w.entries d).next ps (depth + 1) w c.1 c.5)
  ]
