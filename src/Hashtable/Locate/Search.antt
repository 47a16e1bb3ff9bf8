-- ===== src/Hashtable/Locate/Search.antt =====
-- The walk along a chain, `ht_locate_entry_`: what it finds, and which locks it holds then.
use zfstest.Prelude.{
  ℕ, zero, suc, ◌+◌, ◌<◌, ◌≡◌, ◌⊎◌, inl, inr, ap, ==_of_ne, refl, ◌≢◌, true, false, ◌∙◌, List, [],
  ◌∷◌, has, ◌==◌, Option, not, ◌&&◌, none, some, Bool-cases, length, arith, if◌then◌else◌, ℤ,
}
use mathlib.Core.Option
use zfstest.Hashtable.Lock.{Mode, unlocked, enoent, rw_unlock}
use zfstest.Hashtable.Data.{Ptr, null, Key, World, set_errno}
use zfstest.Hashtable.Stats.{CounterName, AverageName}
use zfstest.Hashtable.Stats.Bumps.{
  IsCounting, bump, tally, counter_add-bump, average_increment-tally,
}
use zfstest.Hashtable.Locate.{
  LockCall, FoundEntry, call_entry, release, count_error, count_search, matches, hit, search,
}
use zfstest.Hashtable.Chain.{IsChain, locked}
use zfstest.Hashtable.Chain.Locked.{
  Takes, call_entry-take, call_entry-give, next-locked, matches-locked, locked_congr, locked-nil,
}

-- The steps of the loop.
module _ (fuel : ℕ) (key : Key) (f : LockCall) (previous : Option Ptr) (p d : Ptr) (depth : ℕ)
    (w : World) where
  search-match :
      matches w key d ≡ true
      → search (suc fuel) key f previous p d depth w ≡ some (hit previous p d depth w)
  unfolding search
  search-match found = rw found

  search-end :
      matches w key d ≡ false
      → (w.entries d).next ≡ null
      → search (suc fuel) key f previous p d depth w
        ≡ some (
          (null, previous),
          count_search (depth + 1) (release d (release p (set_errno enoent w))),
        )
  unfolding search
  search-end miss e = rw (miss, e)

  search-first :
      {n : Ptr} {w₁ : World}
      → matches w key d ≡ false
      → (w.entries d).next ≡ n
      → n ≢ null
      → call_entry f n w ≡ (0, w₁)
      → p ≡ null
      → search (suc fuel) key f previous p d depth w ≡ search fuel key f previous d n (depth + 1) w₁
  unfolding search
  search-first miss e ne took first = rw (miss, e, took) (ground arith)

  search-onward :
      {n : Ptr} {w₁ w₂ : World}
      → matches w key d ≡ false
      → (w.entries d).next ≡ n
      → n ≢ null
      → call_entry f n w ≡ (0, w₁)
      → p ≢ null
      → call_entry rw_unlock p w₁ ≡ (0, w₂)
      → search (suc fuel) key f previous p d depth w ≡ search fuel key f previous d n (depth + 1) w₂
  unfolding search
  search-onward miss e ne took later gave = rw (miss, e, took, gave) (ground arith)

pub count_error-bump :
    (w : World) → w.ht.stats.errors.mutex ≡ unlocked → count_error w ≡ bump CounterName.errors 1 w
unfolding count_error
count_error-bump w free = ap (λ (r : ℤ × World). r.1) (counter_add-bump CounterName.errors 1 w free)

pub count_search-tally :
    (depth : ℕ) (w : World)
    → w.ht.stats.searches.mutex ≡ unlocked
    → count_search depth w ≡ tally AverageName.searches depth w
unfolding count_search
count_search-tally depth w free =
    ap (λ r. r.1) (average_increment-tally AverageName.searches depth w free)

-- Whether an entry precedes: the locks that the loop holds at the entry `d`.
abbrev pub pair : Ptr → Ptr → List Ptr
pair p d = if p == null then d ∷ [] else p ∷ d ∷ []

-- The locks that are left when `d` is found.
abbrev pub held : Option Ptr → Ptr → Ptr → List Ptr
held none p d = d ∷ []
held (some _) p d = pair p d

-- The statistics of a search that ends at an entry that matches.
abbrev pub counted : ℕ → World → World
counted depth w = bump CounterName.hits 1 (tally AverageName.searches depth w)

-- What the walk finds: the first entry of the chain that matches, with the entry before it, or
-- nothing. The statistics say how far it went.
abbrev pub outcome : Mode → Key → Option Ptr → Ptr → List Ptr → ℕ → World → FoundEntry × World
outcome m key previous p [] depth w =
    ((null, previous), tally AverageName.searches depth (set_errno enoent w))
outcome m key previous p (d ∷ ps) depth w =
    if matches w key d
    then ((d, Option.map (λ _. p) previous), locked m (held previous p d) (counted depth w))
    else outcome m key previous d ps (depth + 1) w

-- The entry before the one at hand: NULL, or a locked one that is not on the rest of the chain.
abbrev pub Before : World → Ptr → Ptr → List Ptr → Type 0
Before w p d ps =
    (p ≡ null) ⊎ ((p ≢ null) × (p ≢ d) × (has p ps ≡ false) × ((w.entries p).rwlock ≡ unlocked))

module _ (m : Mode) (given : rw_unlock m ≡ (0, unlocked)) (w : World) (idle : IsCounting w.ht.stats)
    (p d : Ptr) (depth : ℕ) where
  hit-held :
      (previous : Option Ptr)
      → Before w p d []
      → hit previous p d depth (locked m (pair p d) w)
        ≡ ((d, Option.map (λ _. p) previous), locked m (held previous p d) (counted depth w))
  unfolding hit
  hit-held (some _) b = rw (
    count_search-tally depth (locked m (pair p d) w) idle.searches,
    counter_add-bump CounterName.hits 1 (locked m (pair p d) (tally AverageName.searches depth w))
        idle.hits,
  )
  hit-held none (inl first) = rw (
    first,
    count_search-tally depth (locked m (d ∷ []) w) idle.searches,
    counter_add-bump CounterName.hits 1 (locked m (d ∷ []) (tally AverageName.searches depth w))
        idle.hits,
  )
  hit-held none (inr (later, apart, _, free)) = rw (
    ==_of_ne p null later,
    count_search-tally depth (locked m (p ∷ d ∷ []) w) idle.searches,
    counter_add-bump CounterName.hits 1 (locked m (p ∷ d ∷ []) (tally AverageName.searches depth w))
        idle.hits,
    call_entry-give m p (p ∷ d ∷ []) (d ∷ []) (counted depth w) given free (ground arith)
        (λ a. ground arith),
  )

release-null : (w : World) → release null w ≡ w
unfolding release
release-null w = refl

pub release-give :
    (m : Mode) (given : rw_unlock m ≡ (0, unlocked)) (w : World) (p : Ptr) (ps qs : List Ptr)
    → p ≢ null
    → (w.entries p).rwlock ≡ unlocked
    → has p ps ≡ true
    → ((a : Ptr) → has a qs ≡ (not (a == p) && has a ps))
    → release p (locked m ps w) ≡ locked m qs w
unfolding release
release-give m given w p ps qs ne free here same =
    rw (==_of_ne p null ne, call_entry-give m p ps qs w given free here same)

-- The walk moves on from `d` to the next entry.
pub Before-step :
    (w : World) (d n : Ptr) (ns : List Ptr)
    → IsChain w.entries d (d ∷ n ∷ ns)
    → IsChain w.entries n (n ∷ ns) × Before w d n ns
Before-step w d n ns (_, ne, out, free, _, rest) =
    ((refl, rest.1, rest.2, rest.3, rest.4, rest.5), inr (ne, ground arith, ground arith, free))

Before-nil : (w : World) (p d : Ptr) (ps : List Ptr) → Before w p d ps → Before w p d []
Before-nil w p d ps (inl first) = inl first
Before-nil w p d ps (inr (later, apart, _, free)) = inr (later, apart, refl, free)

module _ (m : Mode) (given : rw_unlock m ≡ (0, unlocked)) (w : World) (p d : Ptr) (ne : d ≢ null)
    (free : (w.entries d).rwlock ≡ unlocked) where
  pub release-last : release d (locked m (d ∷ []) w) ≡ w
  release-last =
      release-give m given w d (d ∷ []) [] ne free (ground arith) (λ a. ground arith)
      ∙ locked-nil m w

  release-pair : Before w p d [] → release d (release p (locked m (pair p d) w)) ≡ w
  release-pair (inl first) = rw (first, release-null) release-last
  release-pair (inr (later, apart, _, loose)) =
      rw
        (
          ==_of_ne p null later,
          release-give m given w p (p ∷ d ∷ []) (d ∷ []) later loose (ground arith)
              (λ a. ground arith),
        )
        release-last

module _ {f : LockCall} {m : Mode} (t : Takes f m) (key : Key) (previous : Option Ptr) where
  -- One step along the chain: the next entry is locked, and the one before is given back.
  advance :
      (fuel : ℕ) (p d n : Ptr) (ns : List Ptr) (depth : ℕ) (w : World)
      → IsChain w.entries d (d ∷ n ∷ ns)
      → Before w p d (n ∷ ns)
      → matches w key d ≡ false
      → search (suc fuel) key f previous p d depth (locked m (pair p d) w)
        ≡ search fuel key f previous d n (depth + 1) (locked m (pair d n) w)
  advance fuel p d n ns depth w (_, ne, out, free, _, rest) (inl first) miss =
      rw (first, ==_of_ne d null ne)
        (search-first fuel key f previous null d depth (locked m (d ∷ []) w)
          (matches-locked m (d ∷ []) w d key ∙ miss) (next-locked m (d ∷ []) w d ∙ rest.0) rest.1
          (call_entry-take m f n (d ∷ []) w t rest.3 (ground arith)
            ∙ ap (λ v. (0, v)) (locked_congr m (n ∷ d ∷ []) (d ∷ n ∷ []) w (λ a. ground arith)))
          refl)
  advance fuel p d n ns depth w (_, ne, out, free, _, rest) (inr (later, apart, off, loose)) miss =
      rw (==_of_ne p null later, ==_of_ne d null ne)
        (search-onward fuel key f previous p d depth (locked m (p ∷ d ∷ []) w)
          (matches-locked m (p ∷ d ∷ []) w d key ∙ miss) (next-locked m (p ∷ d ∷ []) w d ∙ rest.0)
          rest.1 (call_entry-take m f n (p ∷ d ∷ []) w t rest.3 (ground arith)) later
          (call_entry-give m p (n ∷ p ∷ d ∷ []) (d ∷ n ∷ []) w t.given loose (ground arith)
            (λ a. ground arith)))

  pub search-outcome :
      (fuel : ℕ) (p d : Ptr) (ps : List Ptr) (depth : ℕ) (w : World)
      → IsCounting w.ht.stats
      → IsChain w.entries d (d ∷ ps)
      → Before w p d ps
      → length ps < fuel
      → search fuel key f previous p d depth (locked m (pair p d) w)
        ≡ some (outcome m key previous p (d ∷ ps) depth w)
  search-outcome zero p d ps depth w idle c b enough = absurd (omega arith)
  search-outcome (suc fuel) p d ps depth w idle c b enough = elim (Bool-cases (matches w key d)) [
    | inl found ↦ rw found (
        search-match fuel key f previous p d depth (locked m (pair p d) w)
          (matches-locked m (pair p d) w d key ∙ found)
        ∙ ap some (hit-held m t.given w idle p d depth previous (Before-nil w p d ps b)))
    | inr miss ↦ rw miss (go ps c b (search-outcome fuel d) enough miss)
  ]
    where
      go :
          (ps : List Ptr)
          → IsChain w.entries d (d ∷ ps)
          → Before w p d ps
          → ((n : Ptr) (ns : List Ptr) (depth : ℕ) (w : World)
              → IsCounting w.ht.stats
              → IsChain w.entries n (n ∷ ns)
              → Before w d n ns
              → length ns < fuel
              → search fuel key f previous d n depth (locked m (pair d n) w)
                ≡ some (outcome m key previous d (n ∷ ns) depth w))
          → length ps < suc fuel
          → matches w key d ≡ false
          → search (suc fuel) key f previous p d depth (locked m (pair p d) w)
            ≡ some (outcome m key previous d ps (depth + 1) w)
      go [] (_, ne, out, free, _, rest) b ih enough miss =
          search-end fuel key f previous p d depth (locked m (pair p d) w)
            (matches-locked m (pair p d) w d key ∙ miss) (next-locked m (pair p d) w d ∙ rest)
          ∙ ap (λ v. some ((null, previous), v))
              (ap (count_search (depth + 1))
                  (release-pair m t.given (set_errno enoent w) p d ne free b)
                ∙ count_search-tally (depth + 1) (set_errno enoent w) idle.searches)
      go (n ∷ ns) c b ih enough miss =
          let (c', b') = Before-step w d n ns c in
          advance fuel p d n ns depth w c b miss ∙ ih n ns (depth + 1) w idle c' b' (omega arith)
