-- ===== src/Net/Lifetime.antt =====
-- The life of a session of `http_session.cpp`: the order in which its handlers run. A handler is one
-- step. A session that the server has erased is dead, and no handler of it runs.
pub mod Errors
use my_warehouse.Common.{
  some-inj, Bool-cases, ◌≢◌, ℕ, ◌+◌, ◌≤◌, ◌<◌, ◌≡◌, ◌∙◌, ◌⊎◌, inl, inr, refl, sym, ap, subst, Bool,
  true, false, Option, some, List, [], length,
}
use my_warehouse.Net.Session.{Session, start, close, on_read, on_write, on_timer, max_length}
use my_warehouse.Net.Reading.{IsSession, InvokeKeeps, Settled, start-IsSession, on_read-runs}

module _ {J W : Type 0} (write : J → List ℕ) (invoke : List ℕ → J → W → J × W) where
  -- A handler runs. A read that does not fail gives at least one byte and no more than the room; the
  -- timer that is not cancelled runs out.
  pub data Handler (s : Session J W) : Session J W → Type 0 where
    read_done :
        {s' : Session J W} (bytes : List ℕ)
        → s.reading ≡ true
        → s.registered ≡ true
        → 0 < length bytes
        → s.pos + length bytes ≤ max_length
        → on_read write invoke false bytes s ≡ some s'
        → Handler s s'
    read_failed :
        {s' : Session J W}
        → s.reading ≡ true
        → s.registered ≡ true
        → on_read write invoke true [] s ≡ some s'
        → Handler s s'
    write_done :
        (failed : Bool)
        → s.target.process ≡ true
        → s.registered ≡ true
        → Handler s (on_write write invoke failed s)
    timer_done : s.timing ≡ true → s.registered ≡ true → Handler s (on_timer write invoke false s)

  abbrev pub set_world : W → Session J W → Session J W
  set_world world s = record s { target = record (s.target) { world = world } }

module _ {J W : Type 0} (Holds : J → W → Type 0) (write : J → List ℕ)
    (invoke : List ℕ → J → W → J × W) where
  -- A handler runs, or the rest of the program goes on.
  pub data Step (s : Session J W) : Session J W → Type 0 where
    ran : {s' : Session J W} → Handler write invoke s s' → Step s s'
    others :
        (world : W) → Holds s.target.response.root world → Step s (set_world write invoke world s)

  pub data Steps (s : Session J W) : Session J W → Type 0 where
    stay : Steps s s
    step : {t u : Session J W} → Steps s t → Step t u → Steps s u

  -- A live session waits for a read or for a write, never for a read once it is answered, and its
  -- timer is pending.
  pub record Lives (s : Session J W) : Type 0 where
    pub session : IsSession Holds s
    pub waits : s.registered ≡ true → (s.reading ≡ true) ⊎ (s.target.process ≡ true)
    pub once : s.target.process ≡ true → s.reading ≡ false
    pub timed : s.registered ≡ true → s.timing ≡ true

  pub start-Lives :
      (null : J) (world : W) → Holds null world → Lives (start write invoke null world)
  unfolding start
  start-Lives null world h = record {
    session = start-IsSession Holds write invoke null world h;
    waits = λ _. inl refl;
    once = λ e. absurd (cc);
    timed = λ _. refl;
  }

  true-is-not-false : true ≢ false
  true-is-not-false e = absurd (cc)

  closed-Lives :
      (s t : Session J W)
      → Lives s
      → t.parser ≡ s.parser
      → t.pos ≡ s.pos
      → t.target ≡ s.target
      → (t.reading ≡ true → s.reading ≡ true)
      → Lives (close write invoke t)
  unfolding close
  closed-Lives s t l parser pos target reading = record {
    session = record {
      parsing = rw parser l.session.parsing;
      fits = rw pos l.session.fits;
      room = λ r a. absurd (cc);
      target = rw (pos, target) l.session.target;
    };
    waits = λ e. absurd (cc);
    once = λ p. elim (Bool-cases t.reading) [
      | inl r ↦
          absurd
            (true-is-not-false (sym (reading r) ∙ l.once (sym (ap (λ g. g.process) target) ∙ p)))
      | inr r ↦ r
    ];
    timed = λ e. absurd (cc);
  }

  Settled-Lives :
      (pos : ℕ) (s : Session J W) → Settled Holds write invoke pos s → s.timing ≡ true → Lives s
  Settled-Lives pos s (inv, at, inl (p, r)) t = record {
    session = inv;
    waits = λ _. inr p;
    once = λ _. r;
    timed = λ _. t;
  }
  Settled-Lives pos s (inv, at, inr (inl (a, idle, full))) t = record {
    session = inv;
    waits = λ b. absurd (cc);
    once = λ p. idle;
    timed = λ b. t;
  }
  Settled-Lives pos s (inv, at, inr (inr (fresh, r, a, room))) t = record {
    session = inv;
    waits = λ _. inl r;
    once = λ p. absurd (cc);
    timed = λ b. t;
  }

  -- Every handler leaves the session waiting as `Lives` says.
  pub Handler-Lives :
      InvokeKeeps Holds invoke
      → (s s' : Session J W) → Lives s
      → Handler write invoke s s'
      → Lives s'
  unfolding on_read on_write on_timer
  Handler-Lives keeps s s' l (read_done bytes r a h fits e) =
      let (s₁, e₁, settled, timing) =
        on_read-runs Holds write invoke keeps bytes s l.session a h fits in
      subst Lives (some-inj _ _ (sym e₁ ∙ e))
        (Settled-Lives (s.pos + length bytes) s₁ settled (timing ∙ l.timed a))
  Handler-Lives keeps s s' l (read_failed r a e) =
      subst Lives (some-inj _ _ e)
        (closed-Lives s (record s { reading = false }) l refl refl refl (λ f. absurd (cc)))
  Handler-Lives keeps s _ l (write_done failed p a) =
      closed-Lives s (record s { timing = false }) l refl refl refl (λ r. r)
  Handler-Lives keeps s _ l (timer_done t a) =
      closed-Lives s (record s { timing = false }) l refl refl refl (λ r. r)

  pub set_world-Lives :
      (s : Session J W) (world : W)
      → Lives s
      → Holds s.target.response.root world
      → Lives (set_world write invoke world s)
  set_world-Lives s world l h = record {
    session = record {
      parsing = l.session.parsing;
      fits = l.session.fits;
      room = l.session.room;
      target = record {
        filled = l.session.target.filled;
        inside = l.session.target.inside;
        ok = l.session.target.ok;
        texts = l.session.target.texts;
        silent = l.session.target.silent;
        answered = l.session.target.answered;
        holds = h;
      };
    };
    waits = l.waits;
    once = l.once;
    timed = l.timed;
  }

  Step-Lives : InvokeKeeps Holds invoke → (s s' : Session J W) → Lives s → Step s s' → Lives s'
  Step-Lives keeps s s' l (ran m) = Handler-Lives keeps s s' l m
  Step-Lives keeps s _ l (others world h) = set_world-Lives s world l h

  -- A session that has run a while from `start`.
  Steps-Lives : InvokeKeeps Holds invoke → (s s' : Session J W) → Lives s → Steps s s' → Lives s'
  Steps-Lives keeps s _ l stay = l
  Steps-Lives keeps s s' l (step {t} r m) = Step-Lives keeps t s' (Steps-Lives keeps s t l r) m

  -- From `start`, for a program whose answers keep `Holds`, which the value and the program's state
  -- satisfy at first: in every state that a session reaches, whatever the order of its reads, writes
  -- and timer and whatever the rest of the program does within `Holds` between them, it satisfies
  -- `IsSession`; while the server's set holds it, it waits for a read or it is answered, and its timer
  -- is pending; and it waits for no read once it is answered.
  pub start-Steps :
      (keeps : InvokeKeeps Holds invoke) (null : J) (world : W) (s : Session J W)
      → Holds null world
      → Steps (start write invoke null world) s
      → Lives s
  start-Steps keeps null world s h r =
      Steps-Lives keeps (start write invoke null world) s (start-Lives null world h) r

  -- A session for which nothing is left to answer.
  abbrev pub Final : Session J W → Type 0
  Final s = ((s.target.process ≡ true) × (s.reading ≡ false)) ⊎ (s.registered ≡ false)

  Kept : List (Option (List ℕ)) → Session J W → Type 0
  Kept texts s = (s.target.written ≡ texts) × Final s

  Step-Kept :
      (texts : List (Option (List ℕ))) (s s' : Session J W)
      → Kept texts s
      → Step s s'
      → Kept texts s'
  unfolding Kept on_write on_timer close
  Step-Kept texts s s' (e, inl (p, r)) (ran (read_done bytes r' a h fits o)) =
      absurd (true-is-not-false (sym r' ∙ r))
  Step-Kept texts s s' (e, inr d) (ran (read_done bytes r' a h fits o)) =
      absurd (true-is-not-false (sym a ∙ d))
  Step-Kept texts s s' (e, inl (p, r)) (ran (read_failed r' a o)) =
      absurd (true-is-not-false (sym r' ∙ r))
  Step-Kept texts s s' (e, inr d) (ran (read_failed r' a o)) =
      absurd (true-is-not-false (sym a ∙ d))
  Step-Kept texts s _ (e, f) (ran (write_done failed p a)) = (e, inr refl)
  Step-Kept texts s _ (e, f) (ran (timer_done t a)) = (e, inr refl)
  Step-Kept texts s _ (e, f) (others world h) = (e, f)

  Steps-Kept :
      (texts : List (Option (List ℕ))) (s s' : Session J W)
      → Kept texts s
      → Steps s s'
      → Kept texts s'
  Steps-Kept texts s _ k stay = k
  Steps-Kept texts s s' k (step {t} r m) = Step-Kept texts t s' (Steps-Kept texts s t k r) m

  once-Final :
      (s : Session J W) → Lives s → (s.target.process ≡ true) ⊎ (s.registered ≡ false) → Final s
  once-Final s l (inl p) = inl (p, l.once p)
  once-Final s l (inr d) = inr d

  -- A session that is answered, or that the server has erased, writes no further text, whatever handlers
  -- run after that and whatever the rest of the program does.
  pub answered-Final :
      (keeps : InvokeKeeps Holds invoke) (null : J) (world : W) (s s' : Session J W)
      → Holds null world
      → Steps (start write invoke null world) s
      → (s.target.process ≡ true) ⊎ (s.registered ≡ false)
      → Steps s s'
      → (s'.target.written ≡ s.target.written) × Final s'
  unfolding Kept
  answered-Final keeps null world s s' h r a r' =
      Steps-Kept s.target.written s s' (refl, once-Final s (start-Steps keeps null world s h r) a)
        r'
