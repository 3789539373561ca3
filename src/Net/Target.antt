-- ===== src/Net/Target.antt =====
-- What the callbacks of a session keep true of what they write through `parser->data`.
use my_warehouse.Common.{
  length-drop, ap, subst, sym, take, drop, length-take, ℕ, ◌+◌, ◌≤◌, ◌<◌, ◌≡◌, arith, true, false,
  Option, none, some, List, [], ◌∷◌, ◌++◌, length, length-append,
}
use native.Mathlib.Nat.{le_trans}
use my_warehouse.Http.Response.{
  answer_text, Request, Response, end, get_status_text, lookup_case, with_length,
}
use my_warehouse.Parser.Slices.{Keeps}
use my_warehouse.Net.Session.{Target, body_bytes, on_body, on_message_complete, parser_settings}

-- The place of the body lies inside the bytes that were read.
abbrev pub IsInside : ℕ → ℕ → Option ℕ → Type 0
IsInside n len none = Unit
IsInside n len (some at) = at + len ≤ n

-- Every text that is written is there: no status had undefined behaviour.
abbrev pub AllTexts : List (Option (List ℕ)) → Type 0
AllTexts [] = Unit
AllTexts (none ∷ ts) = ⊥
AllTexts (some t ∷ ts) = AllTexts ts

AllTexts-append :
    (ts : List (Option (List ℕ))) (t : List ℕ) → AllTexts ts → AllTexts (ts ++ some t ∷ [])
AllTexts-append [] t a = tt
AllTexts-append (none ∷ ts) t a = a
AllTexts-append (some u ∷ ts) t a = AllTexts-append ts t a

-- A response of status 200 is written as a text.
end-ok :
    {J : Type 0} (write : J → List ℕ) (r : Response J)
    → r.status ≡ 200
    → (text : List ℕ) × ((end write r).0 ≡ some text)
unfolding end get_status_text lookup_case answer_text
end-ok write r e =
    let body = write r.root in
    let hs = with_length body r.headers in
    (_, ap (λ n. answer_text (get_status_text n) n hs body) e)

slice-length :
    (n len : ℕ) (buffer : List ℕ) (body : Option ℕ)
    → length buffer ≡ n
    → length (elim body [ none ↦ [] | some at ↦ take len (drop at buffer) ]) ≤ n
slice-length n len buffer none e = omega arith
slice-length n len buffer (some at) e =
    omega (arith, length-take len (drop at buffer), length-drop at buffer)

body_bytes-length :
    (n : ℕ) (buffer : List ℕ) (r : Request) → length buffer ≡ n → length (body_bytes buffer r) ≤ n
unfolding body_bytes
body_bytes-length n buffer r e = slice-length n r.len buffer r.body e

module _ {J W : Type 0} (Holds : J → W → Type 0) where
  -- A target whose buffer holds `n` bytes, where `Holds` is said of the response's value and the rest
  -- of the program.
  pub record IsTarget (n : ℕ) (t : Target J W) : Type 0 where
    pub filled : length t.buffer ≡ n
    pub inside : IsInside n t.request.len t.request.body
    pub ok : t.response.status ≡ 200
    pub texts : AllTexts t.written
    pub silent : t.process ≡ false → t.written ≡ []
    pub answered : t.process ≡ true → 0 < length t.written
    pub holds : Holds t.response.root t.world

  module _ (write : J → List ℕ) (invoke : List ℕ → J → W → J × W)
      (keeps : (body : List ℕ) (root : J) (world : W)
        → length body ≤ 2048
        → Holds root world
        → Holds (invoke body root world).0 (invoke body root world).1) where
    on_body-IsTarget :
        (base at len n : ℕ) (t : Target J W)
        → base + (at + len) ≤ n
        → IsTarget n t
        → IsTarget n (on_body write invoke base at len t)
    unfolding on_body
    on_body-IsTarget base at len n t h i = record {
      filled = i.filled;
      inside = omega arith;
      ok = i.ok;
      texts = i.texts;
      silent = i.silent;
      answered = i.answered;
      holds = i.holds;
    }

    on_message_complete-IsTarget :
        (n : ℕ) (t : Target J W)
        → n ≤ 2048
        → IsTarget n t
        → IsTarget n (on_message_complete write invoke t)
    unfolding on_message_complete end get_status_text lookup_case
    on_message_complete-IsTarget n t h i =
        let answer = invoke (body_bytes t.buffer t.request) t.response.root t.world in
        let (text, e) = end-ok write (record (t.response) { root = answer.0 }) i.ok in
        record {
          filled = i.filled;
          inside = i.inside;
          ok = i.ok;
          texts =
              subst (λ o. AllTexts (t.written ++ o ∷ [])) (sym e)
                (AllTexts-append t.written text i.texts);
          silent = λ f. absurd (cc);
          answered = λ f. omega (
            arith,
            length-append t.written ((end write (record (t.response) { root = answer.0 })).0 ∷ []),
          );
          holds =
              keeps (body_bytes t.buffer t.request) t.response.root t.world
                (le_trans (body_bytes-length n t.buffer t.request i.filled) h) i.holds;
        }

    pub parser_settings-Keeps :
        (base total : ℕ)
        → base + total ≤ 2048
        → Keeps (IsTarget (base + total)) (parser_settings write invoke base) total
    unfolding parser_settings
    parser_settings-Keeps base total h = record {
      on_message_begin = tt;
      on_url = tt;
      on_status = tt;
      on_header_field = tt;
      on_header_value = tt;
      on_headers_complete = tt;
      on_chunk_header = tt;
      on_chunk_complete = tt;
      on_body = λ q at n t i j. on_body-IsTarget base at n (base + total) t (omega arith) i;
      on_message_complete = λ q t i. on_message_complete-IsTarget (base + total) t h i;
    }
