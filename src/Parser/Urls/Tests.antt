-- ===== src/Parser/Urls/Tests.antt =====
-- URLs as they stand in metadata, with a crate that knows the scheme `https` only.
use scriptmetakit.Chars.Search.{contains_text}
use scriptmetakit.Chars.{
  Text, codes, trim, trim_start, trim_end, is_whitespace, text_eq, strip_prefix, is_empty,
}
use scriptmetakit.Parser.Urls.Quotes.{unquoted_fixed}
use scriptmetakit.Parser.Urls.{
  UrlCrate, normalize_metadata_url, attempts, with_scheme, parse_repaired, repaired, repair,
  parse_metadata_url, accept, unquoted, unquote, unquote_once, trim_end_quotes,
}
use scriptmetakit.Prelude.{true, false, none, some, if◌then◌else◌, is_some, ◌≡◌, refl}

abbrev pub https_urls : UrlCrate
https_urls = record {
  Url = Text;
  parse = λ text. if is_some (strip_prefix text (codes "https://")) then some text else none;
  scheme = λ url. codes "https";
  has_file_path = λ url. false;
  has_host = λ url. true;
}

unquoted_fixed_example : unquote_once (unquoted (codes " 'h' ")) ≡ unquoted (codes " 'h' ")
unquoted_fixed_example = unquoted_fixed (codes " 'h' ")

repaired_url : normalize_metadata_url https_urls (codes " 'https:/h' ") ≡ some (codes "https://h")
unfolding normalize_metadata_url attempts with_scheme parse_repaired repaired repair
    parse_metadata_url accept unquoted unquote unquote_once trim_end_quotes contains_text trim
    trim_start trim_end is_whitespace text_eq strip_prefix is_empty
repaired_url = refl
