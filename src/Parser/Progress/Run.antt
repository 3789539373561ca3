-- ===== src/Parser/Progress/Run.antt =====
-- The loop of `http_parser_execute` and the function as a whole.
use my_warehouse.Common.{
  if◌then◌else◌, sym, ℕ, zero, suc, ◌+◌, ◌≤◌, ◌<◌, Bool, true, false, ◌≡◌, refl, arith, List,
  length, Bool-cases, inl, inr, get_or, ◌==◌,
}
use my_warehouse.Parser.Flow.{
  count_header_size, ◌>>=◌, Locals, Flow, Next, continue, leave, spinning, advance, reexecute,
}
use my_warehouse.Parser.Enums.{parsing_header, is_ok}
use my_warehouse.Parser.State.{Parser, Settings}
use my_warehouse.Parser.Execute.{
  dispatch, run_states, visit, finish, run_bytes, enter, http_parser_execute, state_fuel,
}
use my_warehouse.Parser.Progress.{
  InRange, Progress, Returned, rank, Called, count_header_size-Called, callback_header_field-Called,
  callback_header_value-Called, callback_url-Called, callback_body-Called, callback_status-Called,
}
use my_warehouse.Parser.Progress.Dispatch.{dispatch-Progress, rank-fuel}

-- The outcome of the whole call: it returns.
abbrev pub Returns : {S : Type 0} → ℕ → Flow S (Locals S) → Type 0
Returns len (continue l) = ⊥
Returns len (leave q s n) = Returned len q n
Returns len spinning = ⊥

-- The outcome of a byte.
abbrev pub Visited : {S : Type 0} → ℕ → ℕ → Flow S (Locals S) → Type 0
Visited len p (continue l') = (p ≤ l'.p) × (l'.p < len) × InRange l'.p_state l'.parser
Visited len p (leave q s n) = Returned len q n
Visited len p spinning = ⊥

module _ {S : Type 0} where
  Called-Visited :
      {er : ℕ} (len p : ℕ) (k : Locals S) (m : Flow S (Locals S))
      (rest : Locals S → Flow S (Locals S))
      → er ≤ len
      → Called er k m
      → ((k' : Locals S) → Called er k (continue k') → Visited len p (rest k'))
      → Visited len p (m >>= rest)
  Called-Visited len p k (continue k') rest j c r = r k' c
  Called-Visited len p k (leave q s n) rest j c r = (omega arith, λ ok. absurd (cc))
  Called-Visited len p k spinning rest j c r = c

module _ {S : Type 0} where
  Called-Returns :
      {er : ℕ} (len : ℕ) (k : Locals S) (m : Flow S (Locals S))
      (rest : Locals S → Flow S (Locals S))
      → er ≤ len
      → Called er k m
      → ((k' : Locals S) → Called er k (continue k') → Returns len (rest k'))
      → Returns len (m >>= rest)
  Called-Returns len k (continue k') rest j c r = r k' c
  Called-Returns len k (leave q s n) rest j c r = (omega arith, λ ok. absurd (cc))
  Called-Returns len k spinning rest j c r = c

module _ {S : Type 0} (len : ℕ) where
  Visited-mono : (p p' : ℕ) (m : Flow S (Locals S)) → p ≤ p' → Visited len p' m → Visited len p m
  Visited-mono p p' (continue l) h (j, k, inv) = (omega arith, k, inv)
  Visited-mono p p' (leave q s n) h v = v
  Visited-mono p p' spinning h v = v

  -- The outcome of the switch, from that of one pass and that of the passes after it.
  passed-Visited :
      (l : Locals S) (m : Flow S (Next S)) (rest : Locals S → Flow S (Locals S))
      → Progress len l m
      → ((l' : Locals S)
          → rank l'.p_state < rank l.p_state
          → l'.p < len
          → InRange l'.p_state l'.parser
          → Visited len l'.p (rest l'))
      → Visited len l.p (elim m [
        | continue (advance l') ↦ continue l'
        | continue (reexecute l') ↦ rest l'
        | leave q s n ↦ leave q s n
        | spinning ↦ spinning
      ])
  passed-Visited l (continue (advance l')) rest h f = h
  passed-Visited l (continue (reexecute l')) rest h f =
      Visited-mono l.p l'.p (rest l') h.0 (f l' h.3 h.1 h.2)
  passed-Visited l (leave q s n) rest h f = h
  passed-Visited l spinning rest h f = h

module _ {S : Type 0} (settings : Settings S) (bytes : List ℕ) where
  -- With as much fuel as the state has rank, `goto reexecute` comes to an end.
  run_states-Visited :
      (n : ℕ) (l : Locals S)
      → rank l.p_state < n
      → l.p < length bytes
      → InRange l.p_state l.parser
      → Visited (length bytes) l.p (run_states settings bytes n l)
  unfolding run_states
  run_states-Visited zero l r i inv = omega arith
  run_states-Visited (suc n) l r i inv =
      passed-Visited (length bytes) l (dispatch settings bytes l.p_state l)
        (run_states settings bytes n) (dispatch-Progress settings bytes l.p_state l refl i inv)
        (λ l' r' i' inv'. run_states-Visited n l' (omega arith) i' inv')

  pub visit-Visited :
      (l : Locals S)
      → l.p < length bytes
      → InRange l.p_state l.parser
      → Visited (length bytes) l.p (visit settings bytes l)
  unfolding visit
  visit-Visited l i inv = elim (Bool-cases (parsing_header l.p_state)) [
    | inl t ↦ rw t (
        Called-Visited (length bytes) l.p l₁ (count_header_size 1 l₁)
          (run_states settings bytes state_fuel) (omega arith) (count_header_size-Called 1 l₁ inv)
          (λ k c.
            rw (sym c.0) (run_states-Visited state_fuel k (rank-fuel k.p_state) (rw c.0 i) c.5)))
    | inr t ↦ rw t (run_states-Visited state_fuel l₁ (rank-fuel l.p_state) i inv)
  ]
    where
      l₁ : Locals S
      l₁ = record l { ch = get_or bytes l.p 0 }

  settled :
      (l : Locals S)
      → InRange l.p_state l.parser
      → InRange l.p_state (record l.parser { state = l.p_state })
  settled l inv = record {
    major = inv.major;
    minor = inv.minor;
    status = inv.status;
    content = inv.content;
    header_bytes = inv.header_bytes;
    no_error = inv.no_error;
    body_left = inv.body_left;
  }

  finish-Returns :
      (l : Locals S)
      → l.p ≡ length bytes
      → InRange l.p_state l.parser
      → Returns (length bytes) (finish settings bytes l)
  unfolding finish
  finish-Returns l e inv =
      Called-Returns _ l _ _ (omega arith) (callback_header_field-Called settings l.p l.p l inv)
        (λ l₁ c₁.
          Called-Returns _ l₁ _ _ (omega arith)
            (callback_header_value-Called settings l.p l.p l₁ c₁.5)
            (λ l₂ c₂.
              Called-Returns _ l₂ _ _ (omega arith) (callback_url-Called settings l.p l.p l₂ c₂.5)
                (λ l₃ c₃.
                  Called-Returns _ l₃ _ _ (omega arith)
                    (callback_body-Called settings l.p l.p l₃ c₃.5)
                    (λ l₄ c₄.
                      Called-Returns _ l₄ _ _ (omega arith)
                        (callback_status-Called settings l.p l.p l₄ c₄.5)
                        (λ l₅ c₅. (omega arith, λ ok. (settled l₅ c₅.5, inr refl)))))))

  if-Returns :
      (b : Bool) (x y : Flow S (Locals S))
      → (b ≡ true → Returns (length bytes) x)
      → (b ≡ false → Returns (length bytes) y)
      → Returns (length bytes) (if b then x else y)
  if-Returns true x y f g = f refl
  if-Returns false x y f g = g refl

  Visited-Returns :
      (p : ℕ) (m : Flow S (Locals S)) (rest : Locals S → Flow S (Locals S))
      → Visited (length bytes) p m
      → ((l : Locals S)
          → p ≤ l.p
          → l.p < length bytes
          → InRange l.p_state l.parser
          → Returns (length bytes) (rest l))
      → Returns
          (length bytes)
          (elim m [ continue l ↦ rest l | leave q s n ↦ leave q s n | spinning ↦ spinning ])
  Visited-Returns p (continue l) rest v f = f l v.0 v.1 v.2
  Visited-Returns p (leave q s n) rest v f = v
  Visited-Returns p spinning rest v f = v

  -- With fuel for the bytes left, the loop comes to an end.
  run_bytes-Returns :
      (n : ℕ) (l : Locals S)
      → l.p ≤ length bytes
      → length bytes ≤ l.p + n
      → InRange l.p_state l.parser
      → Returns (length bytes) (run_bytes settings bytes n l)
  unfolding run_bytes
  run_bytes-Returns zero l i j inv =
      if-Returns (l.p == length bytes) _ _ (λ e. finish-Returns l (omega arith) inv)
        (λ e. absurd (ground arith))
  run_bytes-Returns (suc n) l i j inv =
      if-Returns (l.p == length bytes) _ _ (λ e. finish-Returns l (ground arith) inv)
        (λ e.
          Visited-Returns l.p (visit settings bytes l)
            (λ l'. run_bytes settings bytes n (record l' { p = l'.p + 1 }))
            (visit-Visited l (ground arith) inv)
            (λ l' h k inv'.
              run_bytes-Returns n (record l' { p = l'.p + 1 }) (omega arith) (omega arith) inv'))

  -- For every set of callbacks, every parser that is in range unless it has an error, and at least one
  -- byte, the call returns; it returns at most the number of bytes given; and where no error is
  -- recorded then, the parser is in range again and either reports an upgrade or has read all the bytes.
  pub http_parser_execute-Returns :
      (q : Parser) (s : S)
      → (is_ok q.http_errno ≡ true → InRange q.state q)
      → 0 < length bytes
      → Returns (length bytes) (http_parser_execute settings bytes q s)
  unfolding http_parser_execute enter
  http_parser_execute-Returns q s inv h = elim (Bool-cases (is_ok q.http_errno)) [
    | inl ok ↦ rw ok (
        if-Returns (length bytes == 0) _ _ (λ e. absurd (ground arith))
          (λ e. run_bytes-Returns (length bytes) (enter q s) (omega arith) (omega arith) (inv ok)))
    | inr bad ↦ rw bad (omega arith, λ ok. absurd (ground arith))
  ]
