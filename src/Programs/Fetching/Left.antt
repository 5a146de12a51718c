-- ===== src/Programs/Fetching/Left.antt =====
-- The blocks that the program leaves.
use libc_jss.Base.{
  if◌then◌else◌, if_true, Option-cases, codes, ℕ, ◌≡◌, refl, ap, ◌∙◌, inl, inr, Bool, true, false,
  some, List, [], ◌∷◌, arith,
}
use libc_jss.UrlParser.Holds.{held}
use libc_jss.UrlParser.{Heap, malloc, parse_url}
use libc_jss.UrlParser.Parts.{url_of}
use libc_jss.UrlParser.Accepts.{parse_url-render}
use libc_jss.Htclient.{
  Htclient, default_port, htclient_new, htclient_request_set, htclient_error, htclient_url, Peer,
  htclient_perform, htclient_destroy,
}
use libc_jss.Htclient.Blocks.{Request, request_url, request_text, request_perform, session, spilt}
use libc_jss.Htclient.Lost.{lost}
use libc_jss.Programs.Fetching.{request, report, use_client, main}
use libc_jss.Programs.Fetching.Setup.{parts, parts-AreClean, set_up}

either_zero : (b : Bool) (n : ℕ) → n ≡ 0 → (if b then n else 0) ≡ 0
either_zero true n e = e
either_zero false n e = refl

module _ (grants : ℕ → Bool) (granted : (n : ℕ) → grants n ≡ true) where
  abbrev pub requests : Peer → List Request
  requests peer =
      request_url (codes "http://10.42.20.14:3000/dovecheck")
      ∷ request_text request
      ∷ request_perform peer
      ∷ []

  pub report-ends :
      (t : Htclient) (fds : ℕ) (h : Heap)
      → ((report t fds h).fds ≡ fds) × ((report t fds h).heap ≡ htclient_destroy t h)
  report-ends t fds h = elim (Option-cases (htclient_error t)) [
    | inl e ↦ rw (e, report) (refl, refl)
    | inr (m, e) ↦ rw (e, report) (refl, refl)
  ]

  five_blocks : (h' : Heap) → lost grants (some (url_of parts)) h' ≡ 5
  unfolding lost default_port
  five_blocks h' = refl

  pub requests_spill :
      (peer : Peer) (fds : ℕ) (h : Heap) → spilt grants (requests peer) htclient_new fds h ≡ 5
  unfolding spilt
  requests_spill peer fds h =
      let text = codes "http://10.42.20.14:3000/dovecheck" in
      let parsed = parse_url grants text h in
      let r = htclient_url grants text h htclient_new in
      let p = htclient_perform grants peer fds (htclient_request_set request r.0.0) r.1 in
      let url : lost grants parsed.0 parsed.1 ≡ 5 =
        ap (λ u. lost grants u parsed.1) (parse_url-render grants parts h granted parts-AreClean)
        ∙ five_blocks parsed.1 in
      let buffer : held r.0.0.header_buf ≡ 0 =
        ap (λ (s : Htclient × Bool). held s.0.header_buf) (set_up grants h granted) in
      let kept : (if p.0.1 then held r.0.0.header_buf else 0) ≡ 0 =
        either_zero p.0.1 (held r.0.0.header_buf) buffer in
      omega (arith, url, kept)

  pub main-session :
      (peer : Peer) (fds : ℕ) (h : Heap)
      → let r = session grants (requests peer) htclient_new fds (malloc grants h).1 in
        main grants peer fds h ≡ report r.0 r.1 r.2
  unfolding main malloc use_client session
  main-session peer fds h = if_true (grants h.calls) _ _ (granted h.calls)
