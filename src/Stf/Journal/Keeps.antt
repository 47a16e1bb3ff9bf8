-- ===== src/Stf/Journal/Keeps.antt =====
-- A journal function that returns has closed what it opened and unlocked what it locked.
pub mod Entries
use zfstest.Prelude.{
  ℕ, ◌+◌, ◌-◌, ◌≡◌, ◌≢◌, refl, Bool, true, false, List, ◌==◌, ltb, if◌then◌else◌, length, Option,
  none, some, ℤ, arith, ◌∙◌, ap, sym, subst, Bool-cases, inl, inr, ==_of_ne, if_false, if_true, ◌⊎◌,
}
use zfstest.Stf.Number.{Text}
use zfstest.Stf.Context.{maxchar}
use zfstest.Stf.Journal.{
  Vars, Mapping, unmapped, mapped, refused, System, World, Result, done, exits, undefined, M, after,
  ◌>>=◌, ◌>>◌, return, require, update, print_entry, stf_jnl_open, stf_jnl_close, map_first,
  map_again, vfile_mmap, mutex_lock, mutex_unlock,
}
use zfstest.Stf.Journal.Entry.{
  defined, next_seq, with_journal, under_lock, read_vars, stf_jnl_msg_pid, start_vars,
  testcase_start_body, stf_jnl_testcase_start_pid, end_vars, testcase_end_body,
  stf_jnl_testcase_end, assert_start_vars, assert_start_body, stf_jnl_assert_start_pid, peek_vars,
  set_jasrt, set_jsubid, before_space, start_entry, end_entry, assert_start_entry, msg_entry,
}

-- The same descriptors are open, and the mutex is free if it was.
pub record Kept (w w' : World) : Type 0 where
  pub opened : w'.opened ≡ w.opened
  pub unlocked : w.locked ≡ false → w'.locked ≡ false

abbrev pub Keeps : {A : Type 0} → M A → Type 0
Keeps {A} m = (w w' : World) (a : A) → m w ≡ (done a, w') → Kept w w'

Kept-same : (w : World) → Kept w w
Kept-same w = record { opened = refl; unlocked = λ h. h }

Kept-then : {u v w : World} → Kept u v → Kept v w → Kept u w
Kept-then a b = record { opened = b.opened ∙ a.opened; unlocked = λ h. b.unlocked (a.unlocked h) }

-- What holds between the states before and after a call that returns.
abbrev Relates : {A : Type 0} → (World → World → Type 0) → M A → Type 0
Relates {A} P m = (w w' : World) (a : A) → m w ≡ (done a, w') → P w w'

module _ {A B : Type 0} (m : M A) (f : A → M B) (P Q R : World → World → Type 0)
    (join : (u v w : World) → P u v → Q v w → R u w) (first : Relates P m)
    (second : (a : A) → Relates Q (f a)) where
  after-Relates :
      (w w' : World) (b : B) (r : Result A × World) → m w ≡ r → after r f ≡ (done b, w') → R w w'
  after-Relates w w' b (done a, v) e h = join w v w' (first w v a e) (second a v w' b h)
  after-Relates w w' b (exits, v) e h = absurd (cc)
  after-Relates w w' b (undefined, v) e h = absurd (cc)

  >>=-Relates : Relates R (m >>= f)
  >>=-Relates w w' b h = after-Relates w w' b (m w) refl h

pub >>=-Keeps :
    {A B : Type 0} (m : M A) (f : A → M B) → Keeps m → ((a : A) → Keeps (f a)) → Keeps (m >>= f)
>>=-Keeps m f = >>=-Relates m f Kept Kept Kept (λ u v w. Kept-then)

abbrev SameOpen : World → World → Type 0
SameOpen w w' = w'.opened ≡ w.opened

record Released (w w' : World) : Type 0 where
  pub opened : w'.opened ≡ w.opened
  pub free : w'.locked ≡ false

-- A step that touches neither.
pub steady :
    {A : Type 0} (m : M A)
    → ((w : World) → ((m w).1.opened ≡ w.opened) × ((m w).1.locked ≡ w.locked))
    → Keeps m
steady m h w w' a e = record {
  opened = ap (λ (r : Result _ × World). r.1.opened) (sym e) ∙ (h w).0;
  unlocked = λ free. ap (λ (r : Result _ × World). r.1.locked) (sym e) ∙ ((h w).1 ∙ free);
}

pub stf_jnl_open-cases :
    (sys : System) (w : World)
    → (stf_jnl_open sys w ≡ (done 1, w))
      ⊎ ((stf_jnl_open sys w ≡ (done sys.fd, record w { opened = w.opened + 1 }))
          ⊎ (stf_jnl_open sys w ≡ (exits, w)))
unfolding stf_jnl_open
stf_jnl_open-cases sys w = elim (Bool-cases sys.journal_set) [
  | inr plain ↦ inl (if_false sys.journal_set _ _ plain)
  | inl named ↦ elim (Bool-cases sys.journal_opens) [
    | inl there ↦
        inr (inl (if_true sys.journal_set _ _ named ∙ if_true sys.journal_opens _ _ there))
    | inr missing ↦
        inr (inr (if_true sys.journal_set _ _ named ∙ if_false sys.journal_opens _ _ missing))
  ]
]

module _ (sys : System) (apart : sys.fd ≢ 1) where
  module _ (body : ℕ → M (Unit {0})) (keeps : (fd : ℕ) → Keeps (body fd)) where
    -- The body, and the close behind it.
    closed :
        (fd : ℕ) (w w' : World) (r : Result (Unit {0}) × World)
        → body fd w ≡ r
        → after r (λ _. stf_jnl_close sys fd) ≡ (done tt, w')
        → (v : World) × (Kept w v)
          × (w' ≡ (if fd == 1 then v else record v { opened = v.opened - 1 }))
    unfolding stf_jnl_close
    closed fd w w' (done tt, v) e h = (v, keeps fd w v tt e, cc)
    closed fd w w' (exits, v) e h = absurd (cc)
    closed fd w w' (undefined, v) e h = absurd (cc)

    pub with_journal-Keeps : Keeps (with_journal sys body)
    with_journal-Keeps w w' u h = elim (stf_jnl_open-cases sys w) [
      | inl e ↦
          let h' = subst (λ r. after r rest ≡ (done u, w')) e h in
          let (v, k, e') = closed 1 w w' (body 1 w) refl h' in rw e' k
      | inr (inl e) ↦
          let h' = subst (λ r. after r rest ≡ (done u, w')) e h in
          let w₁ = record w { opened = w.opened + 1 } in
          let (v, k, e') = closed sys.fd w₁ w' (body sys.fd w₁) refl h' in
          rw (e' ∙ if_false (sys.fd == 1) _ _ (==_of_ne sys.fd 1 apart))
            (record { opened = omega (arith, k.opened); unlocked = k.unlocked })
      | inr (inr e) ↦ absurd (let h' = subst (λ r. after r rest ≡ (done u, w')) e h in cc)
    ]
      where
        rest : ℕ → M (Unit {0})
        rest fd = body fd >>= λ _. stf_jnl_close sys fd

pub print_entry-Keeps : (text : Text) (fd : ℕ) → Keeps (print_entry text fd)
unfolding print_entry
print_entry-Keeps text fd = steady _ (λ w. (refl, refl))

pub defined-Keeps : (s : Option Text) → Keeps (defined s)
defined-Keeps none = steady _ (λ w. (refl, refl))
defined-Keeps (some s) = steady _ (λ w. (refl, refl))

pub require-Keeps : (b : Bool) → Keeps (require b)
require-Keeps true = steady _ (λ w. (refl, refl))
require-Keeps false = steady _ (λ w. (refl, refl))

module _ (sys : System) where
  mutex_lock-open : Relates SameOpen (mutex_lock sys)
  unfolding mutex_lock
  mutex_lock-open w w' a h = ground arith

  mutex_unlock-free : Relates Released (mutex_unlock sys)
  unfolding mutex_unlock
  mutex_unlock-free w w' a h = ground arith

  vfile_mmap-steady :
      (m : Mapping) (w : World)
      → ((map_again sys m w).1.opened ≡ w.opened) × ((map_again sys m w).1.locked ≡ w.locked)
  unfolding map_again map_first
  vfile_mmap-steady unmapped w = ground arith
  vfile_mmap-steady mapped w = (refl, refl)
  vfile_mmap-steady refused w = (refl, refl)

  pub vfile_mmap-Keeps : Keeps (vfile_mmap sys)
  unfolding vfile_mmap
  vfile_mmap-Keeps = steady _ (λ w. vfile_mmap-steady w.mapping w)

  under_lock-Keeps : (body : M (Unit {0})) → Keeps body → Keeps (under_lock sys body)
  under_lock-Keeps body keeps =
      >>=-Relates (mutex_lock sys) (λ _. body >> mutex_unlock sys) SameOpen Released Kept
        (λ u v w p q. record { opened = q.opened ∙ p; unlocked = λ _. q.free }) mutex_lock-open
        λ _.
          >>=-Relates body (λ _. mutex_unlock sys) Kept Released Released
            (λ u v w p q. record { opened = q.opened ∙ p.opened; free = q.free }) keeps
            λ _. mutex_unlock-free

  pub return-Keeps : {A : Type 0} (a : A) → Keeps (return a)
  return-Keeps a = steady _ (λ w. (refl, refl))

  read_vars-Keeps : Keeps (read_vars)
  read_vars-Keeps = steady _ (λ w. (refl, refl))

  update-Keeps : (f : Vars → Vars) → Keeps (update f)
  update-Keeps f = steady _ (λ w. (refl, refl))

  pub start_vars-Keeps : (name : Text) (found : Bool) → Keeps (start_vars sys name found)
  unfolding start_vars
  start_vars-Keeps name false = return-Keeps _
  start_vars-Keeps name true = >>=-Keeps _ _ read_vars-Keeps λ v.
      >>=-Keeps _ _
        (under_lock-Keeps _ (>>=-Keeps _ _ (require-Keeps _) λ _. update-Keeps (set_jasrt name)))
        λ _. return-Keeps _

  pub end_vars-Keeps : (found : Bool) → Keeps (end_vars sys found)
  unfolding end_vars
  end_vars-Keeps false = return-Keeps _
  end_vars-Keeps true =
      >>=-Keeps _ _ read_vars-Keeps
        λ v. >>=-Keeps _ _ (under_lock-Keeps _ (update-Keeps next_seq)) λ _. return-Keeps _

  pub assert_start_vars-Keeps :
      (subid : Text) (found : Bool) → Keeps (assert_start_vars sys subid found)
  unfolding assert_start_vars
  assert_start_vars-Keeps subid false = return-Keeps _
  assert_start_vars-Keeps subid true =
      >>=-Keeps _ _
        (under_lock-Keeps _ (>>=-Keeps _ _ (require-Keeps _) λ _. update-Keeps (set_jsubid subid)))
        λ _. >>=-Keeps _ _ read_vars-Keeps λ v. return-Keeps _

  pub peek_vars-Keeps : (found : Bool) → Keeps (peek_vars sys found)
  unfolding peek_vars
  peek_vars-Keeps false = return-Keeps _
  peek_vars-Keeps true = >>=-Keeps _ _ read_vars-Keeps λ v. return-Keeps _

-- The functions that write an entry.
