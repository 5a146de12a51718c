-- ===== src/UrlParser/Examples.antt =====
-- Tests.
use libc_jss.Base.{
  arith, inr, ◌==◌, Bytes, codes, ℕ, ◌≡◌, refl, ap, Bool, true, not, none, some, [],
}
use libc_jss.UrlParser.{Url, Heap, parse_url, parsed_url_free}
use libc_jss.UrlParser.Parts.{Parts, url_of, AreClean}
use libc_jss.UrlParser.Accepts.{parse_url-render}
use libc_jss.UrlParser.Whole.{parse_url_no_leak, render-parse_url}
use libc_jss.UrlParser.Render.{render, lower_scheme}

abbrev granting : ℕ → Bool
granting n = true

abbrev start : Heap
start = record { calls = 0; live = 7 }

-- Every call but the fourth is granted.
abbrev third_refused : ℕ → Bool
third_refused n = not (n == 3)

abbrev full_url : Bytes
full_url = codes "HTTP://u:p@h.hu:80/a?b#c"

abbrev full : Url
full = record {
  scheme = some (codes "http");
  host = some (codes "h.hu");
  port = some (codes "80");
  path = some (codes "a");
  query = some (codes "b");
  fragment = some (codes "c");
  username = some (codes "u");
  password = some (codes "p");
}

parse_url-full : parse_url granting full_url start ≡ (some full, record { calls = 9; live = 16 })
unfolding parse_url parsed_url_free
parse_url-full = refl

parse_url-refused : parse_url third_refused full_url start ≡ (none, record { calls = 4; live = 7 })
unfolding parse_url parsed_url_free
parse_url-refused = refl

parse_url-no_scheme :
    parse_url granting (codes "h.hu/a") start ≡ (none, record { calls = 1; live = 7 })
unfolding parse_url parsed_url_free
parse_url-no_scheme = refl

parse_url_no_leak_example :
    let r = parse_url third_refused full_url start in (parsed_url_free r.0 r.1).live ≡ 7
parse_url_no_leak_example = parse_url_no_leak third_refused full_url start

render-parse_url_example : render full [] ≡ lower_scheme full_url
render-parse_url_example =
    render-parse_url granting full_url start full (ap (λ r. r.0) parse_url-full)

abbrev parts : Parts
parts = record {
  scheme = codes "http";
  user = some (codes "u", some (codes "p"));
  host = codes "[::1]";
  port = some (codes "80");
  tail = some (record { path = codes "a"; query = none; fragment = some (codes "c") });
}

render-parts : render (url_of parts) [] ≡ codes "http://u:p@[::1]:80/a#c"
render-parts = refl

parts-AreClean : AreClean parts
unfolding libc_jss.UrlParser.Text.is_scheme_char
parts-AreClean = record {
  scheme = (refl, refl);
  name = refl;
  password = refl;
  host = ((omega arith, inr (codes "::1", refl, refl)), refl);
  port = refl;
  path = refl;
  query = tt;
}

parse_url-render_example :
    (parse_url granting (codes "http://u:p@[::1]:80/a#c") start).0 ≡ some (url_of parts)
parse_url-render_example = parse_url-render granting parts start (λ n. refl) parts-AreClean
