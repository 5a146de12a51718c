-- ===== src/Programs/Fetching/Setup.antt =====
-- The client that the program makes its request with.
use libc_jss.Base.{if_true, codes, ℕ, ◌≡◌, refl, ap, ◌∙◌, inl, Bool, true, none, some, arith}
use libc_jss.UrlParser.{Heap, malloc, parse_url}
use libc_jss.UrlParser.Parts.{Parts, url_of, AreClean}
use libc_jss.Htclient.{
  Htclient, htclient_new, htclient_request_set, htclient_url, Peer, htclient_perform,
}
use libc_jss.Htclient.Written.{htclient_url-render}
use libc_jss.Programs.Fetching.{request, report, use_client, main}

abbrev pub parts : Parts
parts = record {
  scheme = codes "http";
  user = none;
  host = codes "10.42.20.14";
  port = some (codes "3000");
  tail = some (record { path = codes "dovecheck"; query = none; fragment = none });
}

pub parts-AreClean : AreClean parts
unfolding libc_jss.UrlParser.Text.is_scheme_char
parts-AreClean = record {
  scheme = (refl, refl);
  name = tt;
  password = tt;
  host = ((omega arith, inl (refl, refl)), refl);
  port = refl;
  path = refl;
  query = tt;
}

pub set_up :
    (grants : ℕ → Bool) (h : Heap)
    → ((n : ℕ) → grants n ≡ true)
    → (htclient_url grants (codes "http://10.42.20.14:3000/dovecheck") h htclient_new).0 ≡ (
      record htclient_new {
        full = codes "http://10.42.20.14:3000/dovecheck";
        url = url_of parts;
        url_set = true;
      },
      true,
    )
set_up grants h granted =
    htclient_url-render grants parts (codes "3000") h htclient_new granted parts-AreClean
      (omega arith) refl

module _ (grants : ℕ → Bool) (granted : (n : ℕ) → grants n ≡ true) where
  -- The client that the request is made with.
  abbrev pub ready : Htclient
  ready = record htclient_new {
    full = codes "http://10.42.20.14:3000/dovecheck";
    url = url_of parts;
    url_set = true;
    request_data = request;
  }

  -- The heap behind `htclient_url`.
  abbrev pub set_heap : Heap → Heap
  set_heap h =
      (htclient_url grants (codes "http://10.42.20.14:3000/dovecheck") (malloc grants h).1
        htclient_new).1

  pub main-ready :
      (peer : Peer) (fds : ℕ) (h : Heap)
      → let p = htclient_perform grants peer fds ready (set_heap h) in
        main grants peer fds h ≡ report p.0.0 p.1 p.2
  unfolding main malloc use_client
  main-ready peer fds h =
      if_true (grants h.calls) _ _ (granted h.calls)
      ∙ ap
          (λ (r : Htclient × Bool).
            let p =
              htclient_perform grants peer fds (htclient_request_set request r.0) (set_heap h) in
            report p.0.0 p.1 p.2)
          (set_up grants (malloc grants h).1 granted)
