-- ===== src/Htclient/Written.antt =====
-- `htclient_url` on a URL that is written from clean parts.
use libc_jss.Base.{
  if◌then◌else◌, if_true, length, take_all, Bytes, codes, str_eq, ℕ, ◌≤◌, ◌≡◌, refl, ap, ◌∙◌, Bool,
  true, false, Option, none, some, [],
}
use libc_jss.UrlParser.{Url, Heap, malloc, parse_url}
use libc_jss.UrlParser.Render.{render}
use libc_jss.UrlParser.Parts.{Parts, url_of, AreClean}
use libc_jss.UrlParser.Accepts.{parse_url-render}
use libc_jss.Htclient.{Htclient, strdup, default_port, accept_url, take_url, htclient_url}

-- The port of the URL, or the one that its scheme stands for.
abbrev pub port_for : Bytes → Option Bytes → Option Bytes
port_for scheme (some port) = some port
port_for scheme none =
    if str_eq scheme (codes "http")
    then some (codes "80")
    else if str_eq scheme (codes "https")
    then some (codes "443")
    else none

first_of :
    {A B : Type 0} (b : Bool) (x y : A × B) (u v : A)
    → x.0 ≡ u
    → y.0 ≡ v
    → (if b then x else y).0 ≡ (if b then u else v)
first_of true x y u v h k = h
first_of false x y u v h k = k

module _ (grants : ℕ → Bool) (granted : (n : ℕ) → grants n ≡ true) where
  strdup_granted : (s : Bytes) (h : Heap) → (strdup grants s h).0 ≡ some s
  unfolding malloc
  strdup_granted s h = if_true (grants h.calls) (some s) none (granted h.calls)

  default_port-port_for :
      (u : Url) (scheme : Bytes) (port : Option Bytes) (h : Heap)
      → (default_port grants (record u { scheme = some scheme; port = port }) h).0
        ≡ port_for scheme port
  unfolding default_port
  default_port-port_for u scheme (some port) h = refl
  default_port-port_for u scheme none h =
      first_of (str_eq scheme (codes "http")) _ _ _ _ (strdup_granted (codes "80") h)
        (first_of (str_eq scheme (codes "https")) _ _ _ _ (strdup_granted (codes "443") h) refl)

  accept_url-set :
      (u : Url) (host port : Bytes) (h : Heap) (t : Htclient)
      → (default_port grants (record u { host = some host }) h).0 ≡ some port
      → (accept_url grants (record u { host = some host }) h t).0
        ≡ (record t { url = record u { host = some host; port = some port }; url_set = true }, true)
  unfolding accept_url
  accept_url-set u host port h t e = rw e refl

  take_url-set :
      (parsed : Option Url) (p : Parts) (port : Bytes) (h : Heap) (t : Htclient)
      → parsed ≡ some (url_of p)
      → port_for p.scheme p.port ≡ some port
      → (take_url grants parsed h t).0
        ≡ (record t { url = record (url_of p) { port = some port }; url_set = true }, true)
  unfolding take_url
  take_url-set parsed p port h t e k =
      ap (λ x. (take_url grants x h t).0) e
      ∙ accept_url-set (url_of p) p.host port h t
          (default_port-port_for (url_of p) p.scheme p.port h ∙ k)

-- If all memory is granted, a URL of up to 1023 bytes that is written from clean parts, with a port or with the
-- scheme `http` or `https`, is accepted: `htclient_url` returns 0, stores exactly these parts, with
-- port 80 or 443 where none is written, and marks the URL as set.
pub htclient_url-render :
    (grants : ℕ → Bool) (p : Parts) (port : Bytes) (h : Heap) (t : Htclient)
    → ((n : ℕ) → grants n ≡ true)
    → AreClean p
    → length (render (url_of p) []) ≤ 1023
    → port_for p.scheme p.port ≡ some port
    → (htclient_url grants (render (url_of p) []) h t).0 ≡ (
      record t {
        full = render (url_of p) [];
        url = record (url_of p) { port = some port };
        url_set = true;
      },
      true,
    )
unfolding htclient_url
htclient_url-render grants p port h t granted clean short k =
    let text = render (url_of p) [] in
    let r = parse_url grants text h in
    let t' = record t { full = text } in
    ap (λ s. (let r = parse_url grants s h in take_url grants r.0 r.1 (record t { full = s })).0)
      (take_all 1023 text short)
    ∙ take_url-set grants granted r.0 p port r.1 t' (parse_url-render grants p h granted clean) k
