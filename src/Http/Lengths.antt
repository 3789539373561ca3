-- ===== src/Http/Lengths.antt =====
-- The "Content-Length" that `response::end` writes.
use my_warehouse.Http.Response.{add_length, Response, with_length, end}
use my_warehouse.Common.{
  ap, ◌∙◌, sym, subst, ℕ, ◌≡◌, ◌≢◌, refl, none, some, List, codes, decimal, length,
}
use my_warehouse.Http.Headers.{Headers, find, put}
use my_warehouse.Http.Order.{IsOrdered, lowered, put-find}

with_length-absent :
    (body : List ℕ) (hs : Headers)
    → find (codes "Content-Length") hs ≡ none
    → with_length body hs ≡ put (codes "Content-Length") (decimal (length body)) hs
unfolding with_length add_length
with_length-absent body hs e = ap (λ o. add_length o body hs) e

with_length-present :
    (body v : List ℕ) (hs : Headers)
    → find (codes "Content-Length") hs ≡ some v
    → with_length body hs ≡ hs
unfolding with_length add_length
with_length-present body v hs e = ap (λ o. add_length o body hs) e

-- A response with its headers in order, written by `end()`: where no "Content-Length" is there, the
-- header that is added is the length of the body that is written, and every other header stays; the
-- headers that are left make the next `end()` keep that number, whatever body it writes.
pub end-content_length :
    {J : Type 0} (write write' : J → List ℕ) (r : Response J)
    → IsOrdered r.headers
    → find (codes "Content-Length") r.headers ≡ none
    → let first = (end write r).1 in
      let second = (end write' first).1 in
      (first.body ≡ write r.root)
      × (find (codes "Content-Length") first.headers ≡ some (decimal (length first.body)))
      × ((key : List ℕ)
          → lowered key ≢ lowered (codes "Content-Length")
          → find key first.headers ≡ find key r.headers)
      × IsOrdered first.headers
      × (second.body ≡ write' r.root)
      × (find (codes "Content-Length") second.headers ≡ some (decimal (length first.body)))
unfolding end
end-content_length write write' r o n =
    let body = write r.root in
    let hs = with_length body r.headers in
    let (o', f, g, _, _) = put-find (codes "Content-Length") (decimal (length body)) r.headers o in
    let added = with_length-absent body r.headers n in
    let found : find (codes "Content-Length") hs ≡ some (decimal (length body)) =
      ap (find (codes "Content-Length")) added ∙ f in
    (
      refl,
      found,
      λ key d. ap (find key) added ∙ g key d,
      subst IsOrdered (sym added) o',
      refl,
      ap (find (codes "Content-Length"))
            (with_length-present (write' r.root) (decimal (length body)) hs found)
          ∙ found,
    )
