-- ===== src/Stf/Journal/Session/Laws.antt =====
-- What a sequence of calls leaves open, and how an assertion is framed.
use zfstest.Prelude.{
  ℕ, ◌+◌, ◌-◌, ◌<◌, ◌≡◌, ◌≢◌, refl, true, false, Bool, List, [], ◌∷◌, ◌++◌, ◌==◌, ltb, length, take,
  some, ℤ, arith, ◌∙◌, ap, ap₂, sym, if_false, if_true, ==_of_ne,
}
use zfstest.Stf.Number.{Text}
use zfstest.Stf.Context.{maxchar}
use zfstest.Stf.Journal.{
  Result, System, World, mapped, M, done, require, update, ◌>>=◌, ◌>>◌, print_entry, stf_jnl_open,
  stf_jnl_close, vfile_mmap, map_again, mutex_lock, mutex_unlock,
}
use zfstest.Stf.Journal.Entry.{
  with_journal, under_lock, set_jsubid, assert_start_entry, assert_end_entry,
  stf_jnl_assert_start_pid, assert_start_body, assert_start_vars, stf_jnl_assert_end_pid,
  assert_end_body, peek_vars,
}
use zfstest.Stf.Journal.Keeps.{Keeps, return-Keeps, >>=-Keeps}
use zfstest.Stf.Journal.Keeps.Entries.{
  start-Keeps, end-Keeps, assert_start-Keeps, assert_end-Keeps, totals-Keeps, msg-Keeps, env-Keeps,
  error-Keeps, finish-Keeps,
}
use zfstest.Stf.Journal.Session.Framed.{framed, entered, entered-framed}
use zfstest.Stf.Journal.Session.{
  Call, msg, testcase_start, testcase_end, assert_start, assert_end, totals, env, harness_failure,
  finish, perform, perform_all,
}

module _ (sys : System) (apart : sys.fd ≢ 1) where
  perform-Keeps : (c : Call) → Keeps (perform sys c)
  unfolding perform
  perform-Keeps (msg pid text) = msg-Keeps sys apart pid text
  perform-Keeps (testcase_start pid line) = start-Keeps sys apart pid line
  perform-Keeps (testcase_end name child status) = end-Keeps sys apart name child status
  perform-Keeps (assert_start pid subid) = assert_start-Keeps sys apart pid subid
  perform-Keeps (assert_end pid result) = assert_end-Keeps sys apart pid result
  perform-Keeps (totals pid name counts) = totals-Keeps sys apart pid name counts
  perform-Keeps (env e) = env-Keeps sys apart e
  perform-Keeps (harness_failure error) = error-Keeps sys apart error
  perform-Keeps (finish pid) = finish-Keeps sys apart pid

  perform_all-Keeps : (cs : List Call) → Keeps (perform_all sys cs)
  unfolding perform_all
  perform_all-Keeps [] = return-Keeps sys _
  perform_all-Keeps (c ∷ cs) =
      >>=-Keeps (perform sys c) (λ _. perform_all sys cs) (perform-Keeps c)
        λ _. perform_all-Keeps cs

  -- Any sequence of calls of the journal (messages, starts and ends of test cases and assertions,
  -- totals, the environment, errors of the harness, the end of the run) that returns leaves as
  -- many descriptors of the journal file open as before, and the mutex of the variables unlocked,
  -- if it was unlocked and the descriptor of the journal file is not 1.
  pub perform_all-opened :
      (cs : List Call) (w w' : World)
      → perform_all sys cs w ≡ (done tt, w')
      → w.locked ≡ false
      → (w'.opened ≡ w.opened) × (w'.locked ≡ false)
  perform_all-opened cs w w' e free =
      let k = perform_all-Keeps cs w w' tt e in (k.opened, k.unlocked free)

>>=-done :
    {A B : Type 0} (m : M A) (f : A → M B) {w v : World} {a : A} {r : Result B × World}
    → m w ≡ (done a, v)
    → f a v ≡ r
    → (m >>= f) w ≡ r
>>=-done m f e h = rw e h

-- The journal file can be opened, and the mutex works.
module _ (sys : System) (apart : sys.fd ≢ 1) (set : sys.journal_set ≡ true)
    (opens : sys.journal_opens ≡ true) (locks : sys.lock_works ≡ true)
    (unlocks : sys.unlock_works ≡ true) where
  with_journal-done :
      (body : ℕ → M (Unit {0})) (w v : World)
      → body sys.fd (record w { opened = w.opened + 1 }) ≡ (done tt, v)
      → with_journal sys body w ≡ (done tt, record v { opened = v.opened - 1 })
  unfolding stf_jnl_open stf_jnl_close
  with_journal-done body w v e =
      >>=-done (stf_jnl_open sys) _
        (if_true sys.journal_set _ _ set ∙ if_true sys.journal_opens _ _ opens)
        (>>=-done (body sys.fd) _ e
          (ap (λ t. (done tt, t)) (if_false (sys.fd == 1) _ _ (==_of_ne sys.fd 1 apart))))

  under_lock-done :
      (body : M (Unit {0})) (w v : World)
      → body (record w { locked = true }) ≡ (done tt, v)
      → under_lock sys body w ≡ (done tt, record v { locked = false })
  unfolding mutex_lock mutex_unlock
  under_lock-done body w v e =
      >>=-done (mutex_lock sys) _ (if_true sys.lock_works _ _ locks)
        (>>=-done body _ e (if_true sys.unlock_works _ _ unlocks))

  vfile_mmap-mapped : (w : World) → w.mapping ≡ mapped → vfile_mmap sys w ≡ (done true, w)
  unfolding vfile_mmap map_again
  vfile_mmap-mapped w e = rw e refl

  assert_start_body-done :
      (pid fd : ℕ) (subid : Text) (w : World)
      → w.mapping ≡ mapped
      → length subid < 256
      → assert_start_body sys pid subid fd w ≡ (
        done tt,
        record w {
          vars = set_jsubid subid w.vars;
          locked = false;
          written =
              w.written
              ++ (
                fd,
                take
                    (maxchar + 1)
                    (assert_start_entry sys pid subid (some (set_jsubid subid w.vars))),
              )
                ∷ [];
        },
      )
  unfolding assert_start_body assert_start_vars print_entry
  assert_start_body-done pid fd subid w found short =
      >>=-done (vfile_mmap sys) _ (vfile_mmap-mapped w found) (
        >>=-done (assert_start_vars sys subid true) _
          (>>=-done (under_lock sys (require (ltb (length subid) 256) >> update (set_jsubid subid)))
            _
            (under_lock-done (require (ltb (length subid) 256) >> update (set_jsubid subid)) w
              (record w { locked = true; vars = set_jsubid subid w.vars })
              (>>=-done (require (ltb (length subid) 256)) _ (in_room (record w { locked = true }))
                refl))
            refl)
          refl)
    where
      fits : ltb (length subid) 256 ≡ true
      fits = ground arith

      in_room : (v : World) → require (ltb (length subid) 256) v ≡ (done tt, v)
      in_room v = ap (λ b. require b v) fits

  assert_end_body-done :
      (pid fd : ℕ) (result : ℤ) (w : World)
      → w.mapping ≡ mapped
      → assert_end_body sys pid result fd w ≡ (
        done tt,
        record w {
          written =
              w.written
              ++ (fd, take (maxchar + 1) (assert_end_entry sys pid result (some w.vars))) ∷ [];
        },
      )
  unfolding assert_end_body peek_vars print_entry
  assert_end_body-done pid fd result w found =
      >>=-done (vfile_mmap sys) _ (vfile_mmap-mapped w found) refl

  -- `stf_jnl_assert_start_pid` and then `stf_jnl_assert_end_pid`: with a journal file that opens
  -- on a descriptor other than 1, a mutex that works and is unlocked, mapped variables and a name
  -- shorter than 256, both return, the name is stored in the variables with both counters at 0,
  -- two lines are written, cut at 8193 characters, and nothing else changes; in full, the lines
  -- have the word for the start or the end, the pid, the name of the test, then the name given
  -- behind a colon and the id of the arguments in parentheses (each left out if empty), in the
  -- second line the word for the result (OTHER if the number has no word), and the time and the
  -- activity as a signed number.
  pub assert_start-assert_end :
      (pid : ℕ) (subid : Text) (result : ℤ) (w : World)
      → w.mapping ≡ mapped
      → w.locked ≡ false
      → length subid < 256
      → perform_all sys (assert_start pid subid ∷ assert_end pid result ∷ []) w
        ≡ (done tt, framed sys pid subid result w)
  unfolding perform_all perform stf_jnl_assert_start_pid stf_jnl_assert_end_pid
  assert_start-assert_end pid subid result w found free short =
      >>=-done (perform sys (assert_start pid subid)) _
        (with_journal-done (assert_start_body sys pid subid) w _ (
          assert_start_body-done pid sys.fd subid (record w { opened = w.opened + 1 }) found short))
        (>>=-done (perform sys (assert_end pid result)) _
          (with_journal-done (assert_end_body sys pid result) _ _
            (assert_end_body-done pid sys.fd result _ found))
          (ap₂
            (λ (n : ℕ) (b : Bool).
              (done tt, record (entered sys pid subid result w) { opened = n; locked = b }))
            (omega arith) (sym free)))
      ∙ ap (λ t. (done tt, t)) (entered-framed sys pid subid result w)
