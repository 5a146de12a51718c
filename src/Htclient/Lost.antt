-- ===== src/Htclient/Lost.antt =====
-- htclient.c: the blocks that a URL takes and loses.
use libc_jss.Base.{
  if◌then◌else◌, Bool-cases, Option-cases, take, Bytes, codes, str_eq, ℕ, ◌+◌, ◌≡◌, refl, sym, ◌∙◌,
  inl, inr, Bool, true, false, Option, none, some, arith,
}
use libc_jss.UrlParser.{Url, Heap, malloc, parse_url}
use libc_jss.UrlParser.Holds.{held, blocks}
use libc_jss.UrlParser.Whole.{parse_url-blocks, parse_url_null}
use libc_jss.Htclient.{Htclient, strdup, default_port, lacks, accept_url, take_url, htclient_url}

zero_more : (n : ℕ) → n + 0 ≡ n
zero_more n = omega arith

module _ (grants : ℕ → Bool) where
  pub strdup-live :
      (s : Bytes) (h : Heap) → (strdup grants s h).1.live ≡ h.live + held (strdup grants s h).0
  unfolding malloc
  strdup-live s h = elim (Bool-cases (grants h.calls)) [
    | inl e ↦ rw e refl
    | inr e ↦ rw e (omega arith)
  ]

  choice-live :
      (b : Bool) (x y : Option Bytes × Heap) (n : ℕ)
      → x.1.live ≡ n + held x.0
      → y.1.live ≡ n + held y.0
      → (let r = if b then x else y in r.1.live ≡ n + held r.0)
  choice-live true x y n p q = p
  choice-live false x y n p q = q

  default_port-live :
      (u : Url) (h : Heap)
      → (default_port grants u h).1.live + held u.port ≡ h.live + held (default_port grants u h).0
  unfolding default_port
  default_port-live u h = elim (Option-cases u.port) [
    | inr (port, e) ↦ rw e refl
    | inl e ↦ elim (Option-cases u.scheme) [
      | inl k ↦ rw (e, k) refl
      | inr (scheme, k) ↦
          rw (e, k)
            (zero_more _
              ∙ choice-live (str_eq scheme (codes "http")) (strdup grants (codes "80") h) _ h.live
                  (strdup-live (codes "80") h)
                  (choice-live (str_eq scheme (codes "https")) (strdup grants (codes "443") h)
                    (none, h) h.live (strdup-live (codes "443") h) (sym (zero_more h.live))))
    ]
  ]

  -- The blocks of a URL that was parsed, with its port or the default one; nothing frees them.
  unfoldable pub lost : Option Url → Heap → ℕ
  lost none h = 0
  lost (some u) h = 1 + blocks (record u { port = (default_port grants u h).0 })

  accept_url-live :
      (u : Url) (h : Heap) (t : Htclient)
      → let r = accept_url grants u h t in
        (r.1.live ≡ (default_port grants u h).1.live)
        × (r.0.0.header_buf ≡ t.header_buf)
        × (r.0.0.null_read ≡ t.null_read)
  unfolding accept_url
  accept_url-live u h t = elim (Bool-cases (lacks u.host (default_port grants u h).0)) [
    | inl e ↦ rw e (refl, refl, refl)
    | inr e ↦ rw e (refl, refl, refl)
  ]

  take_url-live :
      (parsed : Option Url) (n : ℕ) (h : Heap) (t : Htclient)
      → ((u : Url) → parsed ≡ some u → h.live ≡ n + 1 + blocks u)
      → (parsed ≡ none → h.live ≡ n)
      → let r = take_url grants parsed h t in
        (r.1.live ≡ n + lost parsed h)
        × (r.0.0.header_buf ≡ t.header_buf)
        × (r.0.0.null_read ≡ t.null_read)
  unfolding take_url lost
  take_url-live none n h t k l = (l refl ∙ omega arith, refl, refl)
  take_url-live (some u) n h t k l =
      let (a, b, c) = accept_url-live u h t in
      (omega (arith, a, default_port-live u h, k u refl), b, c)

  pub htclient_url-live :
      (formatted : Bytes) (h : Heap) (t : Htclient)
      → let r = htclient_url grants formatted h t in
        let parsed = parse_url grants (take 1023 formatted) h in
        (r.1.live ≡ h.live + lost parsed.0 parsed.1)
        × (r.0.0.header_buf ≡ t.header_buf)
        × (r.0.0.null_read ≡ t.null_read)
  unfolding htclient_url
  htclient_url-live formatted h t =
      let text = take 1023 formatted in
      let parsed = parse_url grants text h in
      take_url-live parsed.0 h.live parsed.1 (record t { full = text })
        (parse_url-blocks grants text h) (parse_url_null grants text h)
