-- ===== src/Rlu/Section/Begin.antt =====
-- The begin of a section.
use rcx_hashtables.Base.{
  ℕ, ◌+◌, ◌≡◌, refl, Bool, true, false, arith, Bool-cases, inl, inr, ◌==◌, not, ◌&&◌, ap, ◌∙◌, sym,
}
use rcx_hashtables.Rlu.{Thread, State, Env, tick, is_odd}
use rcx_hashtables.Rlu.Ends
use rcx_hashtables.Rlu.Ends.{returns, Returns}
use rcx_hashtables.Rlu.Sync.{rlu_sync_checkpoint}
use rcx_hashtables.Rlu.Section.{next_counter, rlu_reset, rlu_register_thread, rlu_reader_lock}
use rcx_hashtables.Rlu.Others.{Respects}

-- What a thread has read of the two global versions when it has registered: the writer version, as the
-- others left it after the thread had its new run counter, and then the commit version.
pub record Reads (E : Env) (s : State) (version commit : ℕ) : Type 0 where
  pub counted : Thread
  pub run_counter : counted.run_counter ≡ next_counter s.self.run_counter
  pub version_read : Thread
  pub local_version : version ≡ (E.others (record s { self = counted })).writer_version
  pub first_read : version_read.local_version ≡ version
  pub local_commit_version :
      commit
      ≡ (E.others
          (record (E.others (record s { self = counted })) { self = version_read })).commit_version

-- A thread that has begun a section, from the state `s`.
pub record Begun (E : Env) (s : State) (t' : Thread) : Type 0 where
  pub reads : Reads E s t'.local_version t'.local_commit_version
  pub run_counter : t'.run_counter ≡ next_counter s.self.run_counter
  pub odd : is_odd t'.run_counter ≡ true
  pub is_write_detected : t'.is_write_detected ≡ false
  pub is_steal : t'.is_steal ≡ not (t'.local_version == t'.local_commit_version)
  pub is_check_locks :
      t'.is_check_locks
      ≡ not (
          (t'.local_version == t'.local_commit_version)
          && (s.self.ws_tail_counter == s.self.ws_wb_counter))

next_counter-odd : (n : ℕ) → is_odd n ≡ false → is_odd (next_counter n) ≡ true
next_counter-odd n even = ground (arith, even)

not-same : (b c d : Bool) → b ≡ c → b ≡ d → not d ≡ not c
not-same b c d e f = ap not (rw f at e)

-- What the registration changes.
record Registered (E : Env) (s : State) (t' : Thread) : Type 0 where
  reads : Reads E s t'.local_version t'.local_commit_version
  local_version : ℕ
  local_commit_version : ℕ
  is_sync : ℕ
  same : t' ≡ record (s.self) {
    run_counter = next_counter s.self.run_counter;
    local_version = local_version;
    local_commit_version = local_commit_version;
    is_sync = is_sync;
  }

-- The count of the section and the reset of the flags come before.
started :
    {E : Env} {s : State} {u : Thread} {version commit : ℕ}
    → u.run_counter ≡ s.self.run_counter
    → Reads E (record s { self = u }) version commit
    → Reads E s version commit
started same g = record {
  counted = g.counted;
  run_counter = g.run_counter ∙ ap next_counter same;
  version_read = g.version_read;
  local_version = g.local_version;
  first_read = g.first_read;
  local_commit_version = g.local_commit_version;
}

module _ (E : Env) (r : Respects E) where
  register-Registered :
      (s : State)
      → is_odd s.self.run_counter ≡ false
      → Returns (λ _ s'. Registered E s s'.self) (rlu_register_thread E s)
  unfolding rlu_register_thread tick
  register-Registered s even =
      let s1 : State = record s {
        self = record (s.self) { run_counter = next_counter s.self.run_counter };
      } in
      let s2 : State = E.others s1 in
      let s3 : State = record s2 {
        self = record (s2.self) { local_version = s2.writer_version };
      } in
      let s4 : State = E.others s3 in
      rw even (
        returns (record {
          reads = record {
            counted = s1.self;
            run_counter = refl;
            version_read = s3.self;
            local_version = ap (λ t. t.local_version) (r.self s3);
            first_read = sym (ap (λ t. t.local_version) (r.self s3));
            local_commit_version = refl;
          };
          local_version = s2.writer_version;
          local_commit_version = s4.commit_version;
          is_sync = r.is_sync s3;
          same =
              ap {A = Thread} {B = Thread}
                (λ t. record t { local_commit_version = s4.commit_version }) (r.self s3)
              ∙ ap {A = Thread} {B = Thread}
                  (λ t. record t {
                    local_version = s2.writer_version;
                    local_commit_version = s4.commit_version;
                    is_sync = r.is_sync s3;
                  })
                  (r.self s1);
        }))

  -- The begin of a section returns and fails no assertion if no thread has asked for a
  -- synchronization and the thread is outside a section. The run counter is odd then. The thread has read
  -- the writer version as it was after the counter had got its new value, and then the commit version. The thread may
  -- steal copies if and only if the two versions that it has seen differ, and it checks locks unless they
  -- agree and it has nothing left to write back. The others write of its data only `is_sync`.
  pub rlu_reader_lock_lem :
      (fuel : ℕ) (s : State)
      → (s.self.is_sync == 0) ≡ true
      → is_odd s.self.run_counter ≡ false
      → Returns (λ _ s'. Begun E s s'.self) (rlu_reader_lock E fuel s)
  unfolding rlu_reader_lock rlu_sync_checkpoint rlu_reset
  rlu_reader_lock_lem fuel s quiet even = rw quiet (
      Ends.bind
        (register-Registered
          (record s {
            self = record (s.self) {
              stats = record (s.self.stats) { n_starts = s.self.stats.n_starts + 1 };
              is_write_detected = false;
              is_steal = true;
              is_check_locks = true;
            };
          })
          even)
        λ x s1 g.
          let counter : s1.self.run_counter ≡ next_counter s.self.run_counter =
            ap (λ t. t.run_counter) g.same in
          let odd : is_odd s1.self.run_counter ≡ true =
            ap (λ n. is_odd n) counter ∙ next_counter-odd s.self.run_counter even in
          let wrote : s1.self.is_write_detected ≡ false = ap (λ t. t.is_write_detected) g.same in
          let tail : s1.self.ws_tail_counter ≡ s.self.ws_tail_counter =
            ap (λ t. t.ws_tail_counter) g.same in
          let wb : s1.self.ws_wb_counter ≡ s.self.ws_wb_counter =
            ap (λ t. t.ws_wb_counter) g.same in
          let same : ((s1.self.local_version == s1.self.local_commit_version)
                && (s1.self.ws_tail_counter == s1.self.ws_wb_counter))
              ≡ ((s1.self.local_version == s1.self.local_commit_version)
                  && (s.self.ws_tail_counter == s.self.ws_wb_counter)) =
            ap (λ b. (s1.self.local_version == s1.self.local_commit_version) && b)
              (ap (λ n. n == s1.self.ws_wb_counter) tail
                ∙ ap (λ n. s.self.ws_tail_counter == n) wb) in
          elim (Bool-cases (
            (s1.self.local_version == s1.self.local_commit_version)
            && (s1.self.ws_tail_counter == s1.self.ws_wb_counter))) [
              | inl settled ↦ rw settled (
                  returns (record {
                    reads = started refl g.reads;
                    run_counter = counter;
                    odd = odd;
                    is_write_detected = wrote;
                    is_steal = refl;
                    is_check_locks = not-same _ _ true same settled;
                  }))
              | inr open_ends ↦ rw open_ends (
                  returns (record {
                    reads = started refl g.reads;
                    run_counter = counter;
                    odd = odd;
                    is_write_detected = wrote;
                    is_steal = refl;
                    is_check_locks = not-same _ _ false same open_ends;
                  }))
            ])
