-- ===== src/Net/Lifetime/Errors.antt =====
-- What a session of `http_session.cpp` does once its parser has met an error.
use my_warehouse.Common.{
  some-inj, ℕ, ◌≡◌, ◌∙◌, refl, sym, ap, subst, arith, ◌+◌, ◌++◌, false, Option, none, some, List,
  length,
}
use my_warehouse.Parser.Enums.{Errno, is_ok}
use my_warehouse.Parser.State.{Parser, Settings}
use my_warehouse.Parser.Flow.{continue, leave, spinning}
use my_warehouse.Parser.Execute.{http_parser_execute}
use my_warehouse.Net.Session.{
  Session, close, do_read, after_read, execute_read, on_read, on_write, on_timer, parser_settings,
}
use my_warehouse.Net.Lifetime.{
  Step, Steps, stay, step, ran, others, read_done, read_failed, write_done, timer_done,
}

execute-errored :
    {S : Type 0} (settings : Settings S) (bytes : List ℕ) (q : Parser) (s : S)
    → is_ok q.http_errno ≡ false
    → http_parser_execute settings bytes q s ≡ leave q s 0
unfolding http_parser_execute
execute-errored settings bytes q s e = rw e refl

module _ {J W : Type 0} (Holds : J → W → Type 0) (write : J → List ℕ)
    (invoke : List ℕ → J → W → J × W) where
  Silent : Errno → List (Option (List ℕ)) → Session J W → Type 0
  Silent e texts s = (s.parser.http_errno ≡ e) × (s.target.written ≡ texts)

  after_read-Silent :
      (e : Errno) (texts : List (Option (List ℕ))) (s : Session J W)
      → Silent e texts s
      → Silent e texts (after_read write invoke s)
  unfolding Silent after_read close do_read
  after_read-Silent e texts s (a, b) = (ground arith, ground arith)

  -- Where the parser has an error, a read only adds the bytes.
  errored_read : List ℕ → Session J W → Session J W
  errored_read bytes s = record s {
    pos = s.pos + length bytes;
    target = record (s.target) { buffer = s.target.buffer ++ bytes };
  }

  execute_read-errored :
      (bytes : List ℕ) (s : Session J W)
      → is_ok s.parser.http_errno ≡ false
      → execute_read write invoke bytes s ≡ some (errored_read bytes s)
  unfolding execute_read errored_read
  execute_read-errored bytes s e =
      ap
        (λ m. elim m [
          | continue l ↦ none
          | leave q t n ↦ some (record s { parser = q; pos = s.pos + length bytes; target = t })
          | spinning ↦ none
        ])
        (execute-errored (parser_settings write invoke s.pos) bytes s.parser
          (record (s.target) { buffer = s.target.buffer ++ bytes }) e)

  Step-Silent :
      (e : Errno) (texts : List (Option (List ℕ))) (s s' : Session J W)
      → is_ok e ≡ false
      → Silent e texts s
      → Step Holds write invoke s s'
      → Silent e texts s'
  unfolding Silent on_read errored_read on_write on_timer close
  Step-Silent e texts s s' bad (a, b) (ran (read_done bytes r g h fits o)) =
      let idle = record s { reading = false } in
      let q : is_ok s.parser.http_errno ≡ false = subst (λ x. is_ok x ≡ false) (sym a) bad in
      let e₁ = execute_read-errored bytes idle q in
      subst (Silent e texts)
        (some-inj _ _ (
          sym (ap (λ x. elim x [ none ↦ none | some t ↦ some (after_read write invoke t) ]) e₁)
          ∙ o))
        (after_read-Silent e texts (errored_read bytes idle) (a, b))
  Step-Silent e texts s s' bad (a, b) (ran (read_failed r g o)) =
      subst (Silent e texts) (some-inj _ _ o) (a, b)
  Step-Silent e texts s _ bad k (ran (write_done failed p g)) = k
  Step-Silent e texts s _ bad k (ran (timer_done t g)) = k
  Step-Silent e texts s _ bad k (others world h) = k

  -- Once the parser of a session has an error, the session never answers, whatever arrives after that and
  -- whatever the rest of the program does: what it has written stays as it is, and so does the error.
  pub errored-Silent :
      (s s' : Session J W)
      → is_ok s.parser.http_errno ≡ false
      → Steps Holds write invoke s s'
      → (s'.parser.http_errno ≡ s.parser.http_errno) × (s'.target.written ≡ s.target.written)
  unfolding Silent
  errored-Silent s _ bad stay = (refl, refl)
  errored-Silent s s' bad (step {t} r m) =
      Step-Silent s.parser.http_errno s.target.written t s' bad (errored-Silent s t bad r) m
