-- ===== src/Server/Request.antt =====
-- The envelope of a request (server/http/handler/request.py): the size of the body, and which requests
-- reach the handler's route.
use powergslb.Base.{
  ℕ, ◌≤◌, ◌≡◌, List, [], ◌∷◌, Option, none, some, arith, refl, ap, ◌∙◌, ◌↔◌, leb, leb→le, le→leb,
  Bool-cases, inl, inr, if◌then◌else◌, Text, text_eq, text_eq→eq, text_eq_self, Result, ok, err,
  value_error,
}
use powergslb.Base.Values.{ℤ, pos, negsuc}
use powergslb.Numerals.{int_of}

abbrev length_of : Option Text → Option ℤ
length_of none = some (pos 0)
length_of (some header) = int_of header

abbrev in_range : ℕ → Option ℤ → Result ℕ
in_range max_body_size (some (pos n)) = if leb n max_body_size then ok n else err value_error
in_range max_body_size _ = err value_error

-- `_read_body`: how many bytes are read, by the `Content-Length` header.
unfoldable pub read_body : ℕ → Option Text → Result ℕ
unfolding int_of
read_body max_body_size header = in_range max_body_size (length_of header)

-- What becomes of a request: the handler's route, or an error.
pub data Outcome : Type 0 where
  routed : ℕ → Outcome
  send_error : ℕ → Outcome

-- `_handle_request`, with the number of body bytes that were read.
unfoldable pub handle_request : Text → List Text → ℕ → Outcome
handle_request route [] body = send_error 404
handle_request route (dir ∷ dirs) body = if text_eq dir route then routed body else send_error 404

-- `do_GET`, `do_HEAD`
unfoldable pub do_get : Text → List Text → Outcome
unfolding handle_request
do_get route dirs = handle_request route dirs 0

abbrev posted : Text → List Text → Result ℕ → Outcome
posted route dirs (ok body) = handle_request route dirs body
posted route dirs (err e) = send_error 400

-- `do_POST`
unfoldable pub do_post : ℕ → Text → List Text → Option Text → Outcome
unfolding read_body handle_request
do_post max_body_size route dirs header = posted route dirs (read_body max_body_size header)

-- The body's length, which the header gives where it is there, is one that is allowed.
abbrev pub HasLength : ℕ → Option Text → ℕ → Type 0
HasLength max_body_size header n = (length_of header ≡ some (pos n)) × (n ≤ max_body_size)

-- The path's first segment is the handler's route.
abbrev pub IsOnRoute : Text → List Text → Type 0
IsOnRoute route dirs = (rest : List Text) × (dirs ≡ route ∷ rest)

in_range-HasLength :
    (max_body_size : ℕ) (o : Option ℤ) {n : ℕ}
    → in_range max_body_size o ≡ ok n
    → (o ≡ some (pos n)) × (n ≤ max_body_size)
in_range-HasLength max_body_size none h = cc
in_range-HasLength max_body_size (some (negsuc m)) h = cc
in_range-HasLength max_body_size (some (pos m)) h = ground (arith, leb→le m max_body_size)

in_range-ok :
    (max_body_size n : ℕ) → n ≤ max_body_size → in_range max_body_size (some (pos n)) ≡ ok n
in_range-ok max_body_size n h = rw (le→leb n max_body_size h) refl

handle_request-IsOnRoute :
    (route : Text) (dirs : List Text) (m n : ℕ)
    → handle_request route dirs m ≡ routed n
    → (m ≡ n) × IsOnRoute route dirs
unfolding handle_request
handle_request-IsOnRoute route [] m n h = cc
handle_request-IsOnRoute route (dir ∷ dirs) m n h = elim (Bool-cases (text_eq dir route)) [
  | inl e ↦ (routed_inj (rw e at h), (dirs, ap (λ d. d ∷ dirs) (text_eq→eq dir route e)))
  | inr e ↦ absurd (not_routed (rw e at h))
]
  where
    routed_inj : routed m ≡ routed n → m ≡ n
    routed_inj e = cc

    not_routed : send_error 404 ≡ routed n → ⊥
    not_routed e = cc

-- A POST reaches the route, with so many bytes of its body read, exactly where the first segment of its
-- path is the route, and its `Content-Length` is that number, 0 where there is no such header, and no more
-- than is allowed: with a header that is negative or no number it never does.
pub do_post-routed :
    (max_body_size : ℕ) (route : Text) (dirs : List Text) (header : Option Text) (n : ℕ)
    → (do_post max_body_size route dirs header ≡ routed n)
      ↔ (HasLength max_body_size header n × IsOnRoute route dirs)
unfolding do_post read_body
do_post-routed max_body_size route dirs header n = (forward, backward)
  where
    by_size :
        (r : Result ℕ)
        → read_body max_body_size header ≡ r
        → posted route dirs r ≡ routed n
        → HasLength max_body_size header n × IsOnRoute route dirs
    by_size (err x) e h = cc
    by_size (ok m) e h =
        let (same, there) = handle_request-IsOnRoute route dirs m n h in
        (in_range-HasLength max_body_size (length_of header) (e ∙ ap ok same), there)

    forward :
        do_post max_body_size route dirs header ≡ routed n
        → HasLength max_body_size header n × IsOnRoute route dirs
    forward h = by_size (read_body max_body_size header) refl h

    backward :
        HasLength max_body_size header n × IsOnRoute route dirs
        → do_post max_body_size route dirs header ≡ routed n
    backward ((e, small), (rest, there)) =
        rw (there, e, in_range-ok max_body_size n small)
          (unfold handle_request in (rw (text_eq_self route) refl))
