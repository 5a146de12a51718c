-- ===== src/UrlParser/Holds.antt =====
-- Postconditions of the parser's steps: of the parser, or of the heap where `NULL` is returned.
use libc_jss.Base.{
  Bool-cases, Bytes, ℕ, ◌+◌, ◌-◌, ◌≡◌, refl, inl, inr, Bool, Option, none, some, arith,
}
use libc_jss.UrlParser.{
  Url, Heap, Parser, Result, ok, null, ◌>>=◌, free_field, parsed_url_free, store,
}

abbrev pub Holds : (Parser → Type 0) → (Heap → Type 0) → Result → Type 0
Holds P N (ok s) = P s
Holds P N (null h) = N h

pub Holds-bind :
    (P Q : Parser → Type 0) (N : Heap → Type 0) (m : Result) (f : Parser → Result)
    → Holds P N m
    → ((s : Parser) → P s → Holds Q N (f s))
    → Holds Q N (m >>= f)
Holds-bind P Q N (ok s) f h k = k s h
Holds-bind P Q N (null heap) f h k = h

pub Holds-mono :
    (P Q : Parser → Type 0) (N : Heap → Type 0) (m : Result)
    → Holds P N m
    → ((s : Parser) → P s → Q s)
    → Holds Q N m
Holds-mono P Q N (ok s) h k = k s h
Holds-mono P Q N (null heap) h k = h

-- The blocks that a URL holds beside its own.
abbrev pub held : Option Bytes → ℕ
held none = 0
held (some t) = 1

abbrev pub blocks : Url → ℕ
blocks u =
    held u.scheme
    + held u.host
    + held u.port
    + held u.path
    + held u.query
    + held u.fragment
    + held u.username
    + held u.password

pub live-free_field : (o : Option Bytes) (h : Heap) → (free_field o h).live ≡ h.live - held o
live-free_field none h = omega arith
live-free_field (some t) h = refl

-- `parsed_url_free` gives back every block of the URL, and the URL's own.
pub live-parsed_url_free :
    (u : Url) (h : Heap) → (parsed_url_free (some u) h).live ≡ h.live - (blocks u + 1)
unfolding parsed_url_free
live-parsed_url_free u h =
    let a = free_field u.scheme h in
    let b = free_field u.host a in
    let c = free_field u.port b in
    let d = free_field u.path c in
    let e = free_field u.query d in
    let f = free_field u.fragment e in
    let g = free_field u.username f in
    omega (
      arith,
      live-free_field u.scheme h,
      live-free_field u.host a,
      live-free_field u.port b,
      live-free_field u.path c,
      live-free_field u.query d,
      live-free_field u.fragment e,
      live-free_field u.username f,
      live-free_field u.password g,
    )

abbrev pub Owned : ℕ → Parser → Type 0
Owned base s = s.heap.live ≡ base + 1 + blocks s.url

abbrev pub Freed : ℕ → Heap → Type 0
Freed base h = h.live ≡ base

pub fail-Freed :
    (base : ℕ) (u : Url) (h : Heap)
    → h.live ≡ base + 1 + blocks u
    → Freed base (parsed_url_free (some u) h)
fail-Freed base u h e = omega (arith, live-parsed_url_free u h)

abbrev pub Stored : ℕ → Url → Bytes → Parser → Type 0
Stored base url rest t = Owned base t × (t.url ≡ url) × (t.cur ≡ rest)

-- A copied field is one more block, and a failing `malloc` frees all of them.
pub store-Stored :
    (grants : ℕ → Bool) (base : ℕ) (fill : Bytes → Url) (text rest : Bytes) (s : Parser)
    → Owned base s
    → blocks (fill text) ≡ blocks s.url + 1
    → Holds (Stored base (fill text) rest) (Freed base) (store grants fill text rest s)
unfolding store
store-Stored grants base fill text rest s o b = elim (Bool-cases (grants s.heap.calls)) [
  | inl e ↦ rw e (omega arith, refl, refl)
  | inr e ↦ rw e (fail-Freed base s.url _ o)
]
