-- ===== src/UrlParser/Facts.antt =====
-- What holds between two steps of the parser: of the blocks, of the fields that are still to come,
-- and of the text.
use libc_jss.Base.{Bytes, ℕ, ◌+◌, ◌≡◌, sym, subst₂, Bool, none, [], ◌∷◌, ◌++◌}
use libc_jss.UrlParser.{Url, Parser, Result, ◌>>=◌, store}
use libc_jss.UrlParser.Holds.{
  Holds, Holds-bind, Holds-mono, held, blocks, Owned, Freed, Stored, store-Stored,
}
use libc_jss.UrlParser.Render.{text, marked, render, Halts}

-- Each step's fact: blocks, the fields that are still to come, and the text.
abbrev pub Rest1 : Url → Type 0
Rest1 u = u.fragment ≡ none

abbrev pub Rest2 : Url → Type 0
Rest2 u = (u.query ≡ none) × Rest1 u

abbrev pub Rest3 : Url → Type 0
Rest3 u = (u.path ≡ none) × Rest2 u

abbrev pub Rest4 : Url → Type 0
Rest4 u = (u.port ≡ none) × Rest3 u

abbrev pub Rest5 : Url → Type 0
Rest5 u = (u.host ≡ none) × Rest4 u

abbrev pub Rest6 : Url → Type 0
Rest6 u = (u.password ≡ none) × Rest5 u

abbrev pub Rest7 : Url → Type 0
Rest7 u = (u.username ≡ none) × Rest6 u

module _ (target : Bytes) where
  abbrev pub Text : (Url → Type 0) → Url → Bytes → Type 0
  Text Rest u cur = Rest u × (render u cur ≡ target)

  -- So far as the text goes on, it stands at a byte that stopped the last field.
  abbrev pub Stopped : (Url → Type 0) → (ℕ → Bool) → Url → Bytes → Type 0
  Stopped Rest stop u cur = Rest u × (render u cur ≡ target) × Halts stop cur

  abbrev pub Whole : Url → Bytes → Type 0
  Whole u cur = (render u cur ≡ target) × (cur ≡ [])

  -- Between the username and the `'@'`.
  abbrev pub UserRead : Url → Bytes → Type 0
  UserRead u cur =
      Rest6 u
      × (held u.username ≡ 1)
      × (text u.scheme (b':' ∷ b'/' ∷ b'/' ∷ text u.username cur) ≡ target)

  abbrev pub PasswordRead : Url → Bytes → Type 0
  PasswordRead u cur =
      Rest5 u
      × (held u.username ≡ 1)
      × (text u.scheme (b':' ∷ b'/' ∷ b'/' ∷ text u.username (marked b':' u.password cur)) ≡ target)

  -- Behind the scheme and the text `pre`.
  abbrev pub SchemeRead : Bytes → Url → Bytes → Type 0
  SchemeRead pre u cur = Rest7 u × (text u.scheme (pre ++ cur) ≡ target)

module _ (base : ℕ) where
  -- A step that frees all blocks where it fails.
  abbrev pub Step : (Url → Bytes → Type 0) → Result → Type 0
  Step P = Holds (λ t. Owned base t × P t.url t.cur) (Freed base)

  pub and_then :
      (P Q : Url → Bytes → Type 0) (m : Result) (f : Parser → Result)
      → Step P m
      → ((s : Parser) → Owned base s → P s.url s.cur → Step Q (f s))
      → Step Q (m >>= f)
  and_then P Q m f h k =
      Holds-bind (λ t. Owned base t × P t.url t.cur) (λ t. Owned base t × Q t.url t.cur)
        (Freed base) m f h (λ s g. k s g.0 g.1)

module _ (grants : ℕ → Bool) (base : ℕ) where
  -- What a stored field leaves, for the fact of the next step.
  pub store-Holds :
      (P : Url → Bytes → Type 0) (fill : Bytes → Url) (name rest : Bytes) (s : Parser)
      → Owned base s
      → blocks (fill name) ≡ blocks s.url + 1
      → P (fill name) rest
      → Step base P (store grants fill name rest s)
  store-Holds P fill name rest s o b p =
      Holds-mono (Stored base (fill name) rest) (λ t. Owned base t × P t.url t.cur) (Freed base)
        (store grants fill name rest s) (store-Stored grants base fill name rest s o b)
        λ t h. (h.0, subst₂ P (sym h.1) (sym h.2) p)
