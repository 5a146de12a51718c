-- ===== src/UrlParser/Whole.antt =====
-- The whole parser.
use libc_jss.Base.{
  Bool-cases, Bytes, ℕ, ◌+◌, ◌≡◌, refl, sym, ap, ◌∙◌, inl, inr, Bool, true, false, Option, none,
  some, [], ◌∷◌, arith,
}
use libc_jss.UrlParser.{
  Url, Heap, Parser, Result, ok, null, parsed_url_free, no_fields, skip_slash, read_url, returned,
  parse_url,
}
use libc_jss.UrlParser.Holds.{Holds, Holds-mono, blocks, Owned, Freed, live-parsed_url_free}
use libc_jss.UrlParser.Render.{render, lower_scheme}
use libc_jss.UrlParser.Facts.{Rest3, Rest4, Rest5, Rest7, Text, Step, and_then, Whole, SchemeRead}
use libc_jss.UrlParser.Front.{read_scheme-At, skip_slash-At, read_userpass-At, read_host-At}
use libc_jss.UrlParser.Back.{read_port-At, read_rest-At}

module _ (grants : ℕ → Bool) (base : ℕ) (target : Bytes) where
  -- With the second slash the text is that of a URL with no other field.
  slashes :
      (s : Parser)
      → Owned base s
      → SchemeRead target (b':' ∷ b'/' ∷ []) s.url s.cur
      → Step base (Text target Rest7) (skip_slash s)
  slashes s o e =
      Holds-mono _ (λ t. Owned base t × Text target Rest7 t.url t.cur) (Freed base) _
        (skip_slash-At grants base target (b':' ∷ b'/' ∷ []) s o e)
        λ t h. (h.0, (h.1.0, ground arith))

  read_url-At :
      (url : Bytes) (h : Heap)
      → h.live ≡ base + 1
      → lower_scheme url ≡ target
      → Holds
          (λ t. Owned base t × Whole target t.url t.cur)
          (Freed base)
          (read_url grants (record { url = no_fields; cur = url; heap = h }))
  unfolding read_url
  read_url-At url h o e =
      and_then base (SchemeRead target (b':' ∷ [])) (Whole target) _ _
        (read_scheme-At grants base target url h o e)
        λ s o e.
          and_then base (SchemeRead target (b':' ∷ b'/' ∷ [])) (Whole target) _ _
            (skip_slash-At grants base target (b':' ∷ []) s o e)
            λ s o e. and_then base (Text target Rest7) (Whole target) _ _ (slashes s o e) λ s o e.
              and_then base (Text target Rest5) (Whole target) _ _
                (read_userpass-At grants base target s o e)
                λ s o e.
                  and_then base (Text target Rest4) (Whole target) _ _
                    (read_host-At grants base target s o e)
                    λ s o e.
                      and_then base (Text target Rest3) (Whole target) _ _
                        (read_port-At grants base target s o e) (read_rest-At grants base target)

module _ (grants : ℕ → Bool) (url : Bytes) (h : Heap) where
  abbrev Outcome : Option Url × Heap → Type 0
  Outcome r =
      ((parsed_url_free r.0 r.1).live ≡ h.live)
      × ((u : Url)
          → r.0 ≡ some u
          → (render u [] ≡ lower_scheme url) × (r.1.live ≡ h.live + 1 + blocks u))

  returned-Outcome : (r : Result) → Step h.live (Whole (lower_scheme url)) r → Outcome (returned r)
  unfolding parsed_url_free
  returned-Outcome (null heap) e = (e, λ u m. cc)
  returned-Outcome (ok s) (o, (e, k)) =
      (omega (arith, live-parsed_url_free s.url s.heap), λ u m. whole u m)
    where
      whole :
          (u : Url)
          → some s.url ≡ some u
          → (render u [] ≡ lower_scheme url) × (s.heap.live ≡ h.live + 1 + blocks u)
      whole u m =
          let same : s.url ≡ u = cc in
          (
            ap (λ (v : Url). render v []) (sym same) ∙ ap (render s.url) (sym k) ∙ e,
            o ∙ ap (λ v. h.live + 1 + blocks v) same,
          )

  malloc_refused : grants h.calls ≡ false → Outcome (parse_url grants url h)
  unfolding parse_url parsed_url_free
  malloc_refused m = rw m (refl, λ u e. cc)

  pub malloc_granted :
      grants h.calls ≡ true
      → parse_url grants url h
        ≡ returned (
            read_url grants (record {
              url = no_fields;
              cur = url;
              heap = record { calls = h.calls + 1; live = h.live + 1 };
            }))
  unfolding parse_url
  malloc_granted m = rw m

  parse_url-Outcome : Outcome (parse_url grants url h)
  parse_url-Outcome = elim (Bool-cases (grants h.calls)) [
    | inl m ↦
        rw (malloc_granted m)
          (returned-Outcome _ (read_url-At grants h.live (lower_scheme url) url _ refl refl))
    | inr m ↦ malloc_refused m
  ]

-- Whatever `malloc` answers, and whether the text is a URL or not, `parse_url` loses no block:
-- freeing what it returns, or nothing where it returns `NULL`, leaves as many as before.
pub parse_url_no_leak :
    (grants : ℕ → Bool) (url : Bytes) (h : Heap)
    → let r = parse_url grants url h in (parsed_url_free r.0 r.1).live ≡ h.live
parse_url_no_leak grants url h = (parse_url-Outcome grants url h).0

-- The fields of a URL that is returned, written out with their marks, are the whole text, with its
-- scheme in lower case.
pub render-parse_url :
    (grants : ℕ → Bool) (url : Bytes) (h : Heap) (u : Url)
    → (parse_url grants url h).0 ≡ some u
    → render u [] ≡ lower_scheme url
render-parse_url grants url h u e = ((parse_url-Outcome grants url h).1 u e).0

-- A URL that is returned is one block, with one more for each of its fields.
pub parse_url-blocks :
    (grants : ℕ → Bool) (url : Bytes) (h : Heap) (u : Url)
    → (parse_url grants url h).0 ≡ some u
    → (parse_url grants url h).1.live ≡ h.live + 1 + blocks u
parse_url-blocks grants url h u e = ((parse_url-Outcome grants url h).1 u e).1

-- Where `NULL` is returned, no block is left.
pub parse_url_null :
    (grants : ℕ → Bool) (url : Bytes) (h : Heap)
    → (parse_url grants url h).0 ≡ none
    → (parse_url grants url h).1.live ≡ h.live
unfolding parsed_url_free
parse_url_null grants url h e =
    let r = parse_url grants url h in
    ap (λ p. (parsed_url_free p r.1).live) (sym e) ∙ parse_url_no_leak grants url h
