-- ===== src/Rlu/Others.antt =====
-- rlu.c: what a thread may rely on while the other threads act.
use rcx_hashtables.Base.{ℕ, ◌≡◌, refl, some, ap, ◌∙◌}
use rcx_hashtables.Rlu.{locked, Object, WaitEntry, Stats, Thread, State, Env}
use rcx_hashtables.Rlu.WriteSet.Layout.{Laid, Laid-frame}
use rcx_hashtables.Rlu.WriteSet.Writeback.{IsLaid}

-- The data of the running thread, up to the entries for its wait, `is_sync` and the statistics.
pub record Kept (t t' : Thread) : Type 0 where
  pub q_threads : ℕ → WaitEntry
  pub is_sync : ℕ
  pub stats : Stats
  pub same : t' ≡ record t { q_threads = q_threads; is_sync = is_sync; stats = stats }

pub Kept-refl : (t : Thread) → Kept t t
Kept-refl t = record { q_threads = t.q_threads; is_sync = t.is_sync; stats = t.stats; same = refl }

pub Kept-trans : {t t' t'' : Thread} → Kept t t' → Kept t' t'' → Kept t t''
Kept-trans k l = record {
  q_threads = l.q_threads;
  is_sync = l.is_sync;
  stats = l.stats;
  same =
      l.same
      ∙ ap {A = Thread} {B = Thread}
          (λ x. record x { q_threads = l.q_threads; is_sync = l.is_sync; stats = l.stats }) k.same;
}

-- From `s` to `s'` the thread keeps its data, and each object that it has locked.
pub record Later (s s' : State) : Type 0 where
  pub self : Kept s.self s'.self
  pub locks :
      (a w at : ℕ) (o : Object)
      → s.heap a ≡ some o
      → o.p_obj_copy ≡ locked s.self.uniq_id w at
      → s'.heap a ≡ some o

pub Later-refl : (s : State) → Later s s
Later-refl s = record { self = Kept-refl s.self; locks = λ a w at o e f. e }

pub uniq_id-Later : {s s' : State} → Later s s' → s'.self.uniq_id ≡ s.self.uniq_id
uniq_id-Later l = ap (λ t. t.uniq_id) l.self.same

pub Later-trans : {s s' s'' : State} → Later s s' → Later s' s'' → Later s s''
Later-trans k l = record {
  self = Kept-trans k.self l.self;
  locks = λ a w at o e f. l.locks a w at o (k.locks a w at o e f) (rw (uniq_id-Later k) f);
}

pub obj_write_set-Later : {s s' : State} → Later s s' → s'.self.obj_write_set ≡ s.self.obj_write_set
obj_write_set-Later l = ap (λ t. t.obj_write_set) l.self.same

pub Laid-Later :
    {s s' : State} (w n q : ℕ)
    → Later s s'
    → Laid s.self.uniq_id w (s.self.obj_write_set w).buffer s.heap n 0 q
    → Laid s'.self.uniq_id w (s'.self.obj_write_set w).buffer s'.heap n 0 q
Laid-Later {s} {s'} w n q l laid =
    rw (uniq_id-Later l, obj_write_set-Later l)
      (Laid-frame s'.heap laid λ a o at e f le. l.locks a w at o e f)

pub IsLaid-Later : {s s' : State} (w : ℕ) → Later s s' → IsLaid w s → IsLaid w s'
IsLaid-Later {s} {s'} w l laid =
    rw (uniq_id-Later l, obj_write_set-Later l)
      (Laid-frame s'.heap laid λ a o at e f le. l.locks a w at o e f)

-- The other threads write of this thread's data only `is_sync`, and no object that it has locked.
pub record Respects (E : Env) : Type 0 where
  pub is_sync : State → ℕ
  pub self : (s : State) → (E.others s).self ≡ record (s.self) { is_sync = is_sync s }
  pub locks :
      (s : State) (a w at : ℕ) (o : Object)
      → s.heap a ≡ some o
      → o.p_obj_copy ≡ locked s.self.uniq_id w at
      → (E.others s).heap a ≡ some o

pub Respects-Later : {E : Env} → Respects E → (s : State) → Later s (E.others s)
Respects-Later r s = record {
  self = record {
    q_threads = s.self.q_threads;
    is_sync = r.is_sync s;
    stats = s.self.stats;
    same = r.self s;
  };
  locks = r.locks s;
}

pub q_threads-Respects :
    {E : Env} → Respects E → (s : State) → (E.others s).self.q_threads ≡ s.self.q_threads
q_threads-Respects r s = ap (λ t. t.q_threads) (r.self s)
