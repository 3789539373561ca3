-- ===== src/Net/Reading.antt =====
-- `http_session::onRead` of `http_session.cpp` for bytes that were read.
use my_warehouse.Common.{
  Bool, if◌then◌else◌, sym, ◌++◌, length-append, subst, ◌∙◌, ℕ, ◌+◌, ◌≤◌, ◌<◌, ◌≡◌, ◌⊎◌, inl, inr,
  refl, arith, true, false, Option, none, some, List, length, leb,
}
use my_warehouse.Http.Response.{response_new}
use my_warehouse.Parser.Enums.{is_ok}
use my_warehouse.Parser.State.{http_parser_init}
use my_warehouse.Parser.Flow.{Locals, Flow, continue, leave, spinning}
use my_warehouse.Parser.Progress.{InRange}
use my_warehouse.Parser.Slices.Run.{Delivers, http_parser_execute-Delivers}
use my_warehouse.Net.Target.{IsTarget, IsInside, parser_settings-Keeps}
use my_warehouse.Net.Session.{
  Target, Session, parser_settings, start, close, do_read, after_read, execute_read, on_read,
  max_length,
}

-- A session between two handlers: its parser can go on or has an error, the bytes read fit in the
-- buffer, there is room for at least one more byte where it reads, and what the callbacks write is in
-- order.
pub record IsSession {J W : Type 0} (Holds : J → W → Type 0) (s : Session J W) : Type 0 where
  pub parsing : is_ok s.parser.http_errno ≡ true → InRange s.parser.state s.parser
  pub fits : s.pos ≤ max_length
  pub room : s.reading ≡ true → s.registered ≡ true → s.pos < max_length
  pub target : IsTarget Holds s.pos s.target

IsInside-mono : (n m len : ℕ) (o : Option ℕ) → n ≤ m → IsInside n len o → IsInside m len o
IsInside-mono n m len none h i = tt
IsInside-mono n m len (some at) h i = omega arith

-- The program answers with what `Holds` is said of.
abbrev pub InvokeKeeps : {J W : Type 0} → (J → W → Type 0) → (List ℕ → J → W → J × W) → Type 0
InvokeKeeps {J} {W} Holds invoke =
    (body : List ℕ) (root : J) (world : W)
    → length body ≤ 2048
    → Holds root world
    → Holds (invoke body root world).0 (invoke body root world).1

module _ {J W : Type 0} (Holds : J → W → Type 0) (write : J → List ℕ)
    (invoke : List ℕ → J → W → J × W) where
  pub start-IsSession :
      (null : J) (world : W) → Holds null world → IsSession Holds (start write invoke null world)
  unfolding start http_parser_init response_new
  start-IsSession null world holds = record {
    parsing = λ _. record {
      major = omega arith;
      minor = omega arith;
      status = omega arith;
      content = omega arith;
      header_bytes = omega arith;
      no_error = refl;
      body_left = λ e. absurd (cc);
    };
    fits = omega arith;
    room = λ _ _. omega arith;
    target = record {
      filled = refl;
      inside = tt;
      ok = refl;
      texts = tt;
      silent = λ _. refl;
      answered = λ e. absurd (cc);
      holds = holds;
    };
  }

  -- What is known of the call of the parser.
  Executed : Session J W → ℕ → Option (Session J W) → Type 0
  Executed s n o =
      (s' : Session J W) × (o ≡ some s')
      × (is_ok s'.parser.http_errno ≡ true → InRange s'.parser.state s'.parser)
      × (s'.pos ≡ s.pos + n)
      × (s'.reading ≡ s.reading)
      × (s'.registered ≡ s.registered)
      × (s'.timing ≡ s.timing)
      × IsTarget Holds (s.pos + n) s'.target

  Delivers-Executed :
      (s : Session J W) (len : ℕ) (m : Flow (Target J W) (Locals (Target J W)))
      → Delivers (IsTarget Holds (s.pos + len)) len m
      → Executed s len (elim m [
        | continue l ↦ none
        | leave q t n ↦ some (record s { parser = q; pos = s.pos + len; target = t })
        | spinning ↦ none
      ])
  unfolding Executed
  Delivers-Executed s len (continue l) r = absurd r
  Delivers-Executed s len (leave q t n) (i, r) =
      (_, refl, λ ok. (r.1 ok).0, refl, refl, refl, refl, i)
  Delivers-Executed s len spinning r = absurd r

  fed-IsTarget :
      (bytes : List ℕ) (n : ℕ) (t : Target J W)
      → IsTarget Holds n t
      → IsTarget Holds (n + length bytes) (record t { buffer = t.buffer ++ bytes })
  fed-IsTarget bytes n t i = record {
    filled = omega (arith, length-append t.buffer bytes, i.filled);
    inside = IsInside-mono n (n + length bytes) t.request.len t.request.body (omega arith) i.inside;
    ok = i.ok;
    texts = i.texts;
    silent = i.silent;
    answered = i.answered;
    holds = i.holds;
  }

  execute_read-Executed :
      (keeps : InvokeKeeps Holds invoke) (bytes : List ℕ) (s : Session J W)
      → 0 < length bytes
      → s.pos + length bytes ≤ max_length
      → (is_ok s.parser.http_errno ≡ true → InRange s.parser.state s.parser)
      → IsTarget Holds s.pos s.target
      → Executed s (length bytes) (execute_read write invoke bytes s)
  unfolding execute_read
  execute_read-Executed keeps bytes s h fits inv i = Delivers-Executed s (length bytes) _ (
      http_parser_execute-Delivers (IsTarget Holds (s.pos + length bytes))
        (parser_settings write invoke s.pos) bytes
        (parser_settings-Keeps Holds write invoke keeps s.pos (length bytes) fits) (omega arith)
        s.parser (record (s.target) { buffer = s.target.buffer ++ bytes }) inv h
        (fed-IsTarget bytes s.pos s.target i))

  -- The three ways in which a read ends.
  abbrev pub Settled : ℕ → Session J W → Type 0
  Settled pos s =
      IsSession Holds s
      × (s.pos ≡ pos)
      × ((s.target.process ≡ true) × (s.reading ≡ false)
          ⊎ ((s.registered ≡ false) × (s.reading ≡ false) × (s.pos ≡ max_length)
              ⊎ (s.target.process ≡ false)
                × (s.reading ≡ true)
                × (s.registered ≡ true)
                × (s.pos < max_length)))

  if-Settled :
      (pos : ℕ) (b : Bool) (x y : Session J W)
      → (b ≡ true → Settled pos x)
      → (b ≡ false → Settled pos y)
      → Settled pos (if b then x else y)
  if-Settled pos true x y f g = f refl
  if-Settled pos false x y f g = g refl

  after_read-Settled :
      (s : Session J W)
      → (is_ok s.parser.http_errno ≡ true → InRange s.parser.state s.parser)
      → s.pos ≤ max_length
      → IsTarget Holds s.pos s.target
      → s.reading ≡ false
      → s.registered ≡ true
      → Settled s.pos (after_read write invoke s)
  unfolding after_read close do_read
  after_read-Settled s parsing fits i idle alive =
      if-Settled s.pos s.target.process s _
        (λ p. (
          record { parsing = parsing; fits = fits; room = λ r. absurd (cc); target = i },
          refl,
          inl (p, idle),
        ))
        (λ p.
          if-Settled s.pos (leb max_length s.pos) _ _
            (λ l. (
              record { parsing = parsing; fits = fits; room = λ r a. absurd (cc); target = i },
              refl,
              inr (inl (refl, idle, ground arith)),
            ))
            (λ l. (
              record { parsing = parsing; fits = fits; room = λ r a. ground arith; target = i },
              refl,
              inr (inr (p, refl, alive, ground arith)),
            )))

  after_read-timing : (s : Session J W) → (after_read write invoke s).timing ≡ s.timing
  unfolding after_read close do_read
  after_read-timing s = ground arith

  -- A read that gives at least one byte and no more than the room in the buffer, for a program whose
  -- answers keep `Holds`: the handler returns, and afterwards the session is answered, or has filled
  -- its buffer and is closed, or reads on with room in the buffer, and its timer is as it was. Its
  -- parser is in range or has an error, the body that the callbacks noted lies inside the bytes read, the
  -- status is 200, every text that was written is there, some text was written if the session is
  -- answered and none if it is not, and `Holds` is kept.
  pub on_read-runs :
      (keeps : InvokeKeeps Holds invoke) (bytes : List ℕ) (s : Session J W)
      → IsSession Holds s
      → s.registered ≡ true
      → 0 < length bytes
      → s.pos + length bytes ≤ max_length
      → (s' : Session J W) × (on_read write invoke false bytes s ≡ some s')
        × Settled (s.pos + length bytes) s'
        × (s'.timing ≡ s.timing)
  unfolding on_read Executed
  on_read-runs keeps bytes s inv alive h fits =
      let (s₁, e, parsing, pos, reading, registered, timing, i) =
        execute_read-Executed keeps bytes (record s { reading = false }) h fits inv.parsing
          inv.target in
      (
        after_read write invoke s₁,
        rw e refl,
        subst (λ n. Settled n (after_read write invoke s₁)) pos
            (after_read-Settled s₁ parsing (omega arith)
              (subst (λ n. IsTarget Holds n s₁.target) (sym pos) i) reading (registered ∙ alive)),
        after_read-timing s₁ ∙ timing,
      )
