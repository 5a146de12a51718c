-- ===== src/Htclient/Parsed.antt =====
-- The entries that `parse_http_headers` stores, and their lookup.
use libc_jss.Base.{
  if◌then◌else◌, length, set, take, replicate, drop_while, length-set, Bytes, contains, str_eq, ℕ,
  zero, suc, ◌+◌, ◌≤◌, ◌<◌, ◌≡◌, refl, sym, ap, ◌∙◌, Option, none, some, [], ◌∷◌, ◌++◌, append-nil,
  append_assoc, arith,
}
use libc_jss.Htclient.{
  Entries, Htclient, skip, line_end, parse_loop, parse_http_headers, find_header,
  htclient_header_get, htclient_new,
}
use libc_jss.Htclient.Headers.{
  IsHeader, Headers, render, Avoids, AreHeaders, StartsClear, render-StartsClear, parse_loop_stores,
  word-Avoids, onward-Avoids, parse_loop_round, skip_name, value-StartsClear, name-StartsClear,
}

abbrev pub stored : Headers → Entries
stored [] = []
stored ((name, gap, value) ∷ hs) = (some name, some value) ∷ stored hs

-- The value of the first header with this name.
abbrev pub lookup : Headers → Bytes → Option Bytes
lookup [] name = none
lookup ((n, gap, value) ∷ hs) name = if str_eq n name then some value else lookup hs name

take-set :
    (xs : Entries) (i : ℕ) (v : Option Bytes × Option Bytes) → take i (set xs i v) ≡ take i xs
take-set [] i v = refl
take-set (x ∷ xs) zero v = refl
take-set (x ∷ xs) (suc i) v = ap (◌∷◌ x) (take-set xs i v)

take-suc-set :
    (xs : Entries) (i : ℕ) (v : Option Bytes × Option Bytes)
    → i < length xs
    → take (suc i) (set xs i v) ≡ take i xs ++ v ∷ []
take-suc-set [] i v h = absurd (omega (arith, h))
take-suc-set (x ∷ xs) zero v h = refl
take-suc-set (x ∷ xs) (suc i) v h = ap (◌∷◌ x) (take-suc-set xs i v (omega (arith, h)))

parse_loop_end :
    (left i : ℕ) (headers : Entries)
    → take (parse_loop left [] i headers i).1 (parse_loop left [] i headers i).0 ≡ take i headers
unfolding parse_loop
parse_loop_end zero i headers = refl
parse_loop_end (suc left) i headers = take-set headers i (some [], some [])

-- The entries that count, once the loop has run.
abbrev counted : Entries × ℕ → Entries
counted r = take r.1 r.0

parse_loop_lem :
    (hs : Headers) (left i : ℕ) (headers : Entries)
    → AreHeaders hs
    → length hs ≤ left
    → i + length hs ≤ length headers
    → counted (parse_loop left (render hs) i headers i) ≡ take i headers ++ stored hs
parse_loop_lem [] left i headers h k l =
    parse_loop_end left i headers ∙ sym (append-nil (take i headers))
parse_loop_lem ((name, gap, value) ∷ hs) zero i headers h k l = absurd (omega (arith, k))
parse_loop_lem ((name, gap, value) ∷ hs) (suc left) i headers h k l =
    let v : Option Bytes × Option Bytes = (some name, some value) in
    rw
      (parse_loop_stores name gap value (render hs) left i i headers h.0
        (render-StartsClear hs h.1))
      (parse_loop_lem hs left (suc i) (set headers i v) h.1 (omega (arith, k))
          (omega (arith, l, length-set headers i v))
        ∙ ap (λ e. e ++ stored hs) (take-suc-set headers i v (omega (arith, l)))
        ∙ append_assoc (take i headers) (v ∷ []) (stored hs))

find_header-stored : (hs : Headers) (name : Bytes) → find_header (stored hs) name ≡ lookup hs name
unfolding find_header
find_header-stored [] name = refl
find_header-stored ((n, gap, value) ∷ hs) name = ground (arith, find_header-stored hs name)

-- In a new client, up to 16 lines that are written out from a name, a gap of colons and blanks, and
-- a value, with names that hold no delimiter and values that hold no end of line and start with no
-- delimiter, such as the status line and the headers of a response, are found again:
-- looking up a name gives the value of the first header with that name, and nothing where there is
-- none.
pub htclient_header_get_lem :
    (hs : Headers) (name : Bytes)
    → AreHeaders hs
    → length hs ≤ 16
    → htclient_header_get (parse_http_headers (render hs) htclient_new) name ≡ lookup hs name
unfolding htclient_header_get parse_http_headers
htclient_header_get_lem hs name h k =
    ap (λ e. find_header e name)
      (parse_loop_lem hs 16 0 (replicate 16 (none, none)) h k (omega (arith, k)))
    ∙ find_header-stored hs name

-- The headers in front of a text.
abbrev pub render_onto : Headers → Bytes → Bytes
render_onto [] rest = rest
render_onto ((name, gap, value) ∷ hs) rest =
    name ++ (gap ++ (value ++ b'\r' ∷ b'\n' ∷ render_onto hs rest))

-- The text behind the ends of lines at its front.
abbrev past_lines : Bytes → Bytes
past_lines s = drop_while (λ c. contains line_end c) s

skip_last :
    (value rest : Bytes)
    → Avoids line_end value
    → skip (value ++ b'\r' ∷ b'\n' ∷ rest) line_end ≡ (value, past_lines rest)
skip_last value rest h =
    rw
      (
        word-Avoids line_end value b'\r' (b'\n' ∷ rest) h refl,
        onward-Avoids line_end value b'\r' (b'\n' ∷ rest) h refl,
      )
      refl

parse_loop_last :
    (name gap value rest : Bytes) (left i num : ℕ) (headers : Entries)
    → IsHeader name gap value
    → parse_loop (suc left) (name ++ (gap ++ (value ++ b'\r' ∷ b'\n' ∷ rest))) i headers num
      ≡ parse_loop left (past_lines rest) (suc i) (set headers i (some name, some value)) (suc i)
parse_loop_last name gap value rest left i num headers h =
    let onward = value ++ b'\r' ∷ b'\n' ∷ rest in
    parse_loop_round (name ++ (gap ++ onward)) name onward value (past_lines rest) left i num
      headers
      (skip_name name gap onward h.name_word h.parted h.gap_delimits
        (value-StartsClear value (b'\n' ∷ rest) h.value_clear))
      (skip_last value rest h.value_line) (ground (arith, h.named))

blank_line :
    (h : Bytes × Bytes × Bytes) (hs : Headers) (body : Bytes) (left i num : ℕ) (headers : Entries)
    → AreHeaders (h ∷ hs)
    → parse_loop left (render_onto (h ∷ hs) (b'\r' ∷ b'\n' ∷ body)) i headers num
      ≡ parse_loop left (render_onto (h ∷ hs) body) i headers num
unfolding parse_loop
blank_line h hs body zero i num headers k = refl
blank_line (name, gap, value) [] body (suc left) i num headers k =
    parse_loop_last name gap value (b'\r' ∷ b'\n' ∷ body) left i num headers k.0
    ∙ sym (parse_loop_last name gap value body left i num headers k.0)
blank_line (name, gap, value) (h ∷ hs) body (suc left) i num headers k =
    parse_loop_stores name gap value (render_onto (h ∷ hs) (b'\r' ∷ b'\n' ∷ body)) left i num
      headers k.0 (onto-StartsClear h hs (b'\r' ∷ b'\n' ∷ body) k.1)
    ∙ blank_line h hs body left (suc i) (suc i) (set headers i (some name, some value)) k.1
    ∙ sym (
        parse_loop_stores name gap value (render_onto (h ∷ hs) body) left i num headers k.0
          (onto-StartsClear h hs body k.1))
  where
    onto-StartsClear :
        (h : Bytes × Bytes × Bytes) (hs : Headers) (rest : Bytes)
        → AreHeaders (h ∷ hs)
        → StartsClear line_end (render_onto (h ∷ hs) rest)
    onto-StartsClear (n, g, v) hs rest k =
        name-StartsClear n (g ++ (v ++ b'\r' ∷ b'\n' ∷ render_onto hs rest)) k.0.named k.0.name_line

-- The blank line that ends one such header or more makes no difference: whatever the body is,
-- it is read for further headers just as if it stood directly behind the last header's line.
pub parse_http_headers-body :
    (h : Bytes × Bytes × Bytes) (hs : Headers) (body : Bytes) (t : Htclient)
    → AreHeaders (h ∷ hs)
    → parse_http_headers (render_onto (h ∷ hs) (b'\r' ∷ b'\n' ∷ body)) t
      ≡ parse_http_headers (render_onto (h ∷ hs) body) t
unfolding parse_http_headers
parse_http_headers-body h hs body t k =
    ap (λ (r : Entries × ℕ). record t { headers = r.0; num_headers = r.1 })
      (blank_line h hs body 16 0 t.num_headers t.headers k)
