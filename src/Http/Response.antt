-- ===== src/Http/Response.antt =====
-- `class response` of `request_respons.h`, and the body of `class request`. The value tree and its
-- writer are jsoncpp's: the model takes the type of values and `FastWriter::write` as parameters.
use my_warehouse.Common.{
  ℕ, Option, none, some, List, [], ◌∷◌, ◌++◌, codes, decimal, length, ◌==◌, if◌then◌else◌,
}
use my_warehouse.Http.Headers.{Headers, find, put}

-- The cases of `get_status_text`.
abbrev pub status_texts : List (ℕ × List ℕ)
status_texts =
    (100, codes "Continue")
    ∷ (101, codes "Switching Protocols")
    ∷ (200, codes "OK")
    ∷ (201, codes "Created")
    ∷ (202, codes "Accepted")
    ∷ (203, codes "Non-Authoritative Information")
    ∷ (204, codes "No Content")
    ∷ (205, codes "Reset Content")
    ∷ (206, codes "Partial Content")
    ∷ (300, codes "Multiple Choices")
    ∷ (301, codes "Moved Permanently")
    ∷ (302, codes "Found")
    ∷ (303, codes "See Other")
    ∷ (304, codes "Not Modified")
    ∷ (305, codes "Use Proxy")
    ∷ (307, codes "Temporary Redirect")
    ∷ (400, codes "Bad Request")
    ∷ (401, codes "Unauthorized")
    ∷ (402, codes "Payment Required")
    ∷ (403, codes "Forbidden")
    ∷ (404, codes "Not Found")
    ∷ (405, codes "Method Not Allowed")
    ∷ (406, codes "Not Acceptable")
    ∷ (407, codes "Proxy Authentication Required")
    ∷ (408, codes "Request Timeout")
    ∷ (409, codes "Conflict")
    ∷ (410, codes "Gone")
    ∷ (411, codes "Length Required")
    ∷ (412, codes "Precondition Failed")
    ∷ (413, codes "Request Entity Too Large")
    ∷ (414, codes "Request-URI Too Long")
    ∷ (415, codes "Unsupported Media Type")
    ∷ (416, codes "Requested Range Not Satisfiable")
    ∷ (417, codes "Expectation Failed")
    ∷ (500, codes "Internal Server Error")
    ∷ (501, codes "Not Implemented")
    ∷ (502, codes "Bad Gateway")
    ∷ (503, codes "Service Unavailable")
    ∷ (504, codes "Gateway Timeout")
    ∷ (505, codes "HTTP Version Not Supported")
    ∷ []

-- `get_status_text`. Past the last case the function returns no value, which C++ leaves undefined.
unfoldable pub lookup_case : ℕ → List (ℕ × List ℕ) → Option (List ℕ)
lookup_case status [] = none
lookup_case status ((n, text) ∷ cases) =
    let rest = lookup_case status cases in if status == n then some text else rest

unfoldable pub get_status_text : ℕ → Option (List ℕ)
get_status_text status = lookup_case status status_texts

-- The fields of `request` that the session sets: the place of the body and its length.
pub record Request : Type 0 where
  pub body : Option ℕ
  pub len : ℕ

abbrev pub request_new : Request
request_new = record { body = none; len = 0 }

pub record Response (J : Type 0) : Type 0 where
  pub headers : Headers
  pub status : ℕ
  pub body : List ℕ
  pub root : J

abbrev pub crlf : List ℕ
crlf = b'\r' ∷ b'\n' ∷ []

-- `for (auto h : headers_)`.
unfoldable pub header_lines : Headers → List ℕ
header_lines [] = []
header_lines ((k, v) ∷ hs) = k ++ codes ": " ++ v ++ crlf ++ header_lines hs

-- The stream of `end()`, for the text of the status.
unfoldable pub response_text : List ℕ → ℕ → Headers → List ℕ → List ℕ
response_text text status hs body =
    codes "HTTP/1.1 "
    ++ decimal status
    ++ codes " "
    ++ text
    ++ crlf
    ++ header_lines hs
    ++ crlf
    ++ body

-- The entry that `end()` adds, for what `find("Content-Length")` gives.
unfoldable pub add_length : Option (List ℕ) → List ℕ → Headers → Headers
add_length none body hs = put (codes "Content-Length") (decimal (length body)) hs
add_length (some v) body hs = hs

unfoldable pub with_length : List ℕ → Headers → Headers
with_length body hs = add_length (find (codes "Content-Length") hs) body hs

-- The stream of `end()`, for what `get_status_text` gives.
unfoldable pub answer_text : Option (List ℕ) → ℕ → Headers → List ℕ → Option (List ℕ)
answer_text none status hs body = none
answer_text (some text) status hs body = some (response_text text status hs body)

module _ {J : Type 0} where
  unfoldable pub response_new : J → Response J
  response_new null = record {
    headers = put (codes "Content-Type") (codes "text/json") [];
    status = 200;
    body = [];
    root = null;
  }

  unfoldable pub set_status : ℕ → Response J → Response J
  set_status status_code r = record r { status = status_code }

  unfoldable pub set_header : List ℕ → List ℕ → Response J → Response J
  set_header key value r = record r { headers = put key value r.headers }

  -- `end()`: the text that is written, none where the status has no text, and the response after it.
  unfoldable pub end : (J → List ℕ) → Response J → Option (List ℕ) × Response J
  end write r =
      let body = write r.root in
      let hs = with_length body r.headers in
      (
        answer_text (get_status_text r.status) r.status hs body,
        record r { headers = hs; body = body },
      )
