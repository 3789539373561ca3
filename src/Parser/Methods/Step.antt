-- ===== src/Parser/Methods/Step.antt =====
-- The state `s_req_method` of http_parser.c for one byte of a method's name.
use my_warehouse.Common.{
  ℕ, suc, ◌≤◌, ◌≡◌, ◌≢◌, ◌⊎◌, inl, inr, ◌∙◌, refl, sym, ap, subst, arith, Bool, true, false, ◌&&◌,
  Option, none, some, List, [], ◌∷◌, length, take, leb, ◌==◌, if◌then◌else◌,
}
use my_warehouse.Parser.Enums.{
  State, s_start_req, s_req_method, s_req_spaces_before_url, Method, method_string,
}
use my_warehouse.Parser.Flow.{
  Locals, Flow, Next, continue, leave, spinning, advance, reexecute, fail, to_state,
}
use my_warehouse.Parser.Request.{other_method, step_req_method, continue_method, matcher_at}
use my_warehouse.Parser.Methods.{
  all_pos, method_string-is_name, and-both, get_or-end, Spelled, get_or-Spelled, Spells,
  Spells-some, other_method-Spells,
}

abbrev pub is_name_state : State → Bool
is_name_state s_req_method = true
is_name_state _ = false

pub not-both : (s : State) → is_name_state s ≡ true → s ≢ s_req_spaces_before_url
not-both s t e = absurd (let f : is_name_state s ≡ false = ap is_name_state e in cc)

abbrev pub is_start_state : State → Bool
is_start_state s_start_req = true
is_start_state _ = false

pub start-not_spaces : (s : State) → s ≡ s_start_req → s ≢ s_req_spaces_before_url
start-not_spaces s t e = absurd (
    let f : is_start_state s ≡ true = ap is_start_state t in
    let g : is_start_state s ≡ false = ap is_start_state e in cc)

module _ {S : Type 0} where
  abbrev pub advanced : Flow S (Next S) → (Locals S → Option (Locals S)) → Option (Locals S)
  advanced (continue (advance l)) f = f l
  advanced (continue (reexecute l)) f = none
  advanced (leave q s n) f = none
  advanced spinning f = none

  -- `case s_req_method` for bytes that all leave the parser there, but for the last one.
  abbrev pub read_name : List ℕ → Locals S → Option (Locals S)
  read_name [] l = some l
  read_name (c ∷ cs) l =
      let rest = advanced (step_req_method (record l { ch = c })) (read_name cs) in
      if is_name_state l.p_state then rest else none

  -- A parser that reads a name: the bytes so far are the first ones of its method's name.
  pub record IsReading (l : Locals S) : Type 0 where
    pub state : l.p_state ≡ s_req_method
    pub before : l.parser.index ≤ length (method_string l.parser.method)

  -- The bytes so far.
  abbrev pub so_far : Locals S → List ℕ
  so_far l = take l.parser.index (method_string l.parser.method)

  -- What one byte does: it spells one byte more of a name, or the name is complete.
  abbrev pub Read : Locals S → ℕ → Flow S (Next S) → Type 0
  Read l c (continue (advance l')) =
      ((l'.p_state ≡ s_req_method)
        × Spelled l.parser.index (so_far l) c (method_string l'.parser.method)
        × (l'.parser.index ≡ suc l.parser.index))
      ⊎ ((l'.p_state ≡ s_req_spaces_before_url)
          × (c ≡ b' ')
          × (so_far l ≡ method_string l'.parser.method))
  Read l c (continue (reexecute l')) = ⊥
  Read l c (leave q s n) = Unit
  Read l c spinning = ⊥

  if-Read :
      (l : Locals S) (c : ℕ) (b : Bool) (x y : Flow S (Next S))
      → (b ≡ true → Read l c x)
      → (b ≡ false → Read l c y)
      → Read l c (if b then x else y)
  if-Read l c true x y f g = f refl
  if-Read l c false x y f g = g refl

  continue_method-Read :
      (l : Locals S) (c : ℕ) (o : Option Method)
      → IsReading l
      → Spells l.parser.index (so_far l) c o
      → Read l c (continue_method (record l { ch = c }) o)
  unfolding continue_method fail
  continue_method-Read l c none i k = tt
  continue_method-Read l c (some m) i k =
      let (s, h) = k m refl in
      let (p, short) =
        and-both (all_pos (method_string m)) (leb (length (method_string m)) 11)
          (method_string-is_name m) in
      let few : length (method_string m) ≤ 11 = ground arith in inl (i.state, (s, h), omega arith)

  want-Spelled :
      (l : Locals S) (c : ℕ)
      → c ≢ 0
      → matcher_at l.parser.method l.parser.index ≡ c
      → Spelled l.parser.index (so_far l) c (method_string l.parser.method)
  want-Spelled l c n e =
      subst (λ x. Spelled l.parser.index (so_far l) x (method_string l.parser.method)) e
        (get_or-Spelled (method_string l.parser.method) l.parser.index (λ z. n (sym e ∙ z)))

  pub step_req_method-Read :
      (l : Locals S) (c : ℕ) → IsReading l → Read l c (step_req_method (record l { ch = c }))
  unfolding step_req_method fail continue_method
  step_req_method-Read l c i =
      let m = l.parser.method in
      let want = matcher_at m l.parser.index in
      if-Read l c (c == 0) _ _ (λ _. tt)
        (λ z.
          if-Read l c (c == b' ' && want == 0)
            (continue_method (to_state s_req_spaces_before_url (record l { ch = c })) (some m)) _
            (λ e.
              let (a, b) = and-both (c == b' ') (want == 0) e in
              let (p, short) =
                and-both (all_pos (method_string m)) (leb (length (method_string m)) 11)
                  (method_string-is_name m) in
              inr
                (refl, ground arith, get_or-end (method_string m) l.parser.index p (ground arith)))
            (λ _.
              if-Read l c (c == want) _ _
                (λ e. continue_method-Read l c (some m) i (
                  Spells-some l.parser.index (so_far l) c m
                    (want-Spelled l c (ground arith) (ground arith))))
                (λ _.
                  continue_method-Read l c (other_method m l.parser.index c) i
                    (other_method-Spells m l.parser.index c))))
