-- ===== src/Bootstrap/Examples.antt =====
-- The bootstrap properties at concrete inputs.
use remo_broker.Base.{◌↔◌, arith, ℕ, ◌≡◌, refl, true, some, List, codes, is_empty, starts_with, ok}
use remo_broker.Config.{BootstrapSource}
use remo_broker.Bootstrap.{
  World, content, not_present, timed_out, fetch_token, fetch_file, file_token,
}
use remo_broker.Bootstrap.Http.{
  Utf8, parse_http_response, find_separator, status_of, words_from, lines, strip_cr, push_word,
}
use remo_broker.Bootstrap.Url.{
  parse_base_url, parse_authority, rsplit_once, parse_u16, parse_digits,
}
use remo_broker.Base.Texts
use remo_broker.Bootstrap.RoundTrip.{url_of, parse-url_of}
use remo_broker.Bootstrap.Sources.{Origin, fetch_token_iff}
use remo_broker.Base.Paths.{split}
use remo_broker.Base.Trim.{trim, trim_start, trim_end, strip_all, strip_space, strip_space_back}

abbrev ascii : Utf8
ascii = record { is_utf8 = λ s. true; lossy = λ s. s }

abbrev world : World
world = record {
  read_file = λ p. content (codes " tok\n");
  env_var = λ v. not_present;
  exchange = λ host port timeout request. timed_out;
  utf8 = ascii;
}

token_read : fetch_token world (BootstrapSource.file (codes "/t")) ≡ ok (codes "tok")
unfolding fetch_token fetch_file file_token trim trim_start trim_end strip_all strip_space
    strip_space_back is_empty
token_read = refl

fetch_token_iff_example :
    (fetch_token world (BootstrapSource.file (codes "/t")) ≡ ok (codes "tok"))
    ↔ Origin world (BootstrapSource.file (codes "/t")) (codes "tok")
fetch_token_iff_example = fetch_token_iff world (BootstrapSource.file (codes "/t")) (codes "tok")

url_parsed : parse_base_url (codes "http://127.0.0.1:8080/x") ≡ some (codes "127.0.0.1", 8_080)
unfolding parse_base_url parse_authority rsplit_once parse_u16 parse_digits starts_with is_empty
    split
url_parsed = refl

abbrev raw : List ℕ
raw = codes "HTTP/1.1 200 OK\r\n\r\nbody"

response_parsed : parse_http_response ascii raw ≡ ok (codes "body")
unfolding parse_http_response find_separator status_of words_from strip_space lines strip_cr
    push_word starts_with split parse_u16 parse_digits is_empty
response_parsed = refl

parse-url_of_example :
    parse_base_url (url_of (codes "::1") 8_080 (codes "x")) ≡ some (codes "::1", 8_080)
unfolding Texts.is_empty
parse-url_of_example =
    parse-url_of (codes "::1") (codes "x") 8_080 refl
      ((λ e. ground arith), ((λ e. ground arith), ((λ e. ground arith), tt))) (omega arith)
