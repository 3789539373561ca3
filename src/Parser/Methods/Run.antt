-- ===== src/Parser/Methods/Run.antt =====
-- The states `s_start_req` and `s_req_method` of http_parser.c over the bytes of a method's name.
use my_warehouse.Parser.Methods.Step.{is_start_state, advanced, read_name}
use my_warehouse.Common.{◌==◌, ◌||◌, ℕ, ◌≡◌, Option, none, some, List, [], ◌∷◌, ◌++◌, if◌then◌else◌}
use my_warehouse.Parser.Enums.{s_req_spaces_before_url, Method, method_string}
use my_warehouse.Parser.State.{Settings}
use my_warehouse.Parser.Flow.{Locals, Flow}
use my_warehouse.Parser.Request.{step_start_req}

-- The bytes behind the ends of lines at the front.
abbrev pub skip_line_ends : List ℕ → List ℕ
skip_line_ends [] = []
skip_line_ends (c ∷ cs) =
    let rest = skip_line_ends cs in if c == b'\r' || c == b'\n' then rest else c ∷ cs

module _ {S : Type 0} where
  -- The bytes of a name, and the space behind it.
  abbrev Accepts : List ℕ → List ℕ → Option (Locals S) → Type 0
  Accepts text cs o =
      (l' : Locals S)
      → o ≡ some l'
      → l'.p_state ≡ s_req_spaces_before_url
      → text ++ cs ≡ method_string l'.parser.method ++ b' ' ∷ []

  -- The bytes from `s_start_req` on, read in that state and then in `s_req_method`; a byte that is left
  -- for another state is `none`.
  abbrev pub read_request_name : Settings S → List ℕ → Locals S → Option (Locals S)
  read_request_name settings [] l = some l
  read_request_name settings (c ∷ cs) l =
      advanced (step_start_req settings (record l { ch = c })) (λ l'.
        let again = read_request_name settings cs l' in
        if is_start_state l'.p_state then again else read_name cs l')

  -- Callbacks without `on_message_begin`, as a session has them.
  abbrev pub quiet : Settings S → Settings S
  quiet settings = record settings { on_message_begin = none }

  -- What is done with the bytes behind one byte of `s_start_req`.
  abbrev rest_of : Settings S → List ℕ → Locals S → Option (Locals S)
  rest_of settings cs l' =
      let again = read_request_name settings cs l' in
      if is_start_state l'.p_state then again else read_name cs l'

  -- The outcome is the spaces before the URL, with a method.
  abbrev pub Reaches : Method → Option (Locals S) → Type 0
  Reaches m o =
      (l' : Locals S) × (o ≡ some l')
      × (l'.p_state ≡ s_req_spaces_before_url)
      × (l'.parser.method ≡ m)
